-- ===== src/Frames/Run.antt =====
-- `pma_alloc_contiguous` of kernel/k_memory.c: a run of frames.
use yomotsu.Base.{
  ℕ, zero, suc, ◌+◌, ◌-◌, ◌*◌, ◌≤◌, ◌<◌, ◌≡◌, ◌⊎◌, inl, inr, refl, Option, none, some, true, false,
  arith, ◌==◌, Option-cases, Bool-cases, dec_lt, subst,
}
use yomotsu.Frames.{
  Frames, Alloc, page_size, map_elements, div_ceil, fill, run_is_free, find_run, with_lock,
  take_run, alloc_contiguous,
}

abbrev pub IsFreeRun : ℕ → ℕ → (ℕ → ℕ) → Type 0
IsFreeRun pages i m = (j : ℕ) → i ≤ j → j < i + pages → m j ≡ 0

run_is_free-true : (n i : ℕ) (m : ℕ → ℕ) → run_is_free n i m ≡ true → IsFreeRun n i m
unfolding run_is_free
run_is_free-true zero i m e j lo hi = absurd (omega arith)
run_is_free-true (suc n) i m e j lo hi = elim (Bool-cases (m i == 0)) [
  | inl z ↦ elim (dec_lt i j) [
    | yes p ↦ run_is_free-true n (i + 1) m (ground arith) j (omega arith) (omega arith)
    | no p ↦ let same : i ≡ j = omega arith in rw (← same) (ground arith)
  ]
  | inr nz ↦ absurd (ground arith)
]

run_is_free-false : (n i : ℕ) (m : ℕ → ℕ) → IsFreeRun n i m → run_is_free n i m ≡ true
unfolding run_is_free
run_is_free-false zero i m free = refl
run_is_free-false (suc n) i m free =
    let z : m i ≡ 0 = free i (omega arith) (omega arith) in
    ground (arith, run_is_free-false n (i + 1) m (λ j lo hi. free j (omega arith) (omega arith)))

-- What `find_run` finds among the `rounds` starts from `i` on.
abbrev pub Finds : ℕ → ℕ → ℕ → (ℕ → ℕ) → Option ℕ → Type 0
Finds rounds i pages m none = (j : ℕ) → i ≤ j → j < i + rounds → m j ≡ 0 → ¬ (IsFreeRun pages j m)
Finds rounds i pages m (some k) = (i ≤ k) × (k < i + rounds) × IsFreeRun pages k m

Finds-later :
    (n i pages : ℕ) (m : ℕ → ℕ) (r : Option ℕ)
    → (m i ≡ 0 → ¬ (IsFreeRun pages i m))
    → Finds n (i + 1) pages m r
    → Finds (suc n) i pages m r
Finds-later n i pages m none ne f = λ j lo hi z. elim (dec_lt i j) [
  | yes p ↦ f j (omega arith) (omega arith) z
  | no p ↦
      let same : i ≡ j = omega arith in subst (λ k. m k ≡ 0 → ¬ (IsFreeRun pages k m)) same ne z
]
Finds-later n i pages m (some k) ne f = (omega arith, omega arith, f.2)

find_run-Finds :
    (rounds i pages : ℕ) (m : ℕ → ℕ) → Finds rounds i pages m (find_run rounds i pages m)
unfolding find_run
find_run-Finds zero i pages m = λ j lo hi. absurd (omega arith)
find_run-Finds (suc n) i pages m = elim (Bool-cases (m i == 0)) [
  | inl e ↦ elim (Bool-cases (run_is_free pages i m)) [
    | inl free ↦ rw (e, free, find_run) (omega arith, omega arith, run_is_free-true pages i m free)
    | inr used ↦
        rw (e, used, find_run)
          (Finds-later n i pages m (find_run n (i + 1) pages m)
            (λ z all. cc (run_is_free-false pages i m all)) (find_run-Finds n (i + 1) pages m))
  ]
  | inr e ↦
      rw (e, find_run)
        (Finds-later n i pages m (find_run n (i + 1) pages m) (λ z. absurd (ground arith))
          (find_run-Finds n (i + 1) pages m))
]

-- For a size of at most 8 TB, with the lock of the map free, `pma_alloc_contiguous` returns with
-- the lock free. Either it returns the start of a run of free frames that is long enough, sets the
-- count of each of them to 1 and changes no other; or it returns 0, changes nothing, and there is
-- no such run among the starts that it tries, which leave out the last place in the map.
pub alloc_contiguous_lem :
    (size : ℕ) (f : Frames)
    → div_ceil size page_size ≤ map_elements
    → f.locked ≡ false
    → let pages = div_ceil size page_size in
      ((i : ℕ) × (i < map_elements - pages)
        × IsFreeRun pages i f.map
        × (alloc_contiguous size f
            ≡ Alloc.returned
                (i * page_size)
                (record f { map = fill f.map i pages 1; locked = false })))
      ⊎ (((j : ℕ) → j < map_elements - pages → f.map j ≡ 0 → ¬ (IsFreeRun pages j f.map))
          × (alloc_contiguous size f ≡ Alloc.returned 0 (record f { locked = false })))
unfolding alloc_contiguous with_lock take_run
alloc_contiguous_lem size f small free =
    let pages = div_ceil size page_size in
    let found = find_run-Finds (map_elements - pages) 0 pages f.map in
    elim (Option-cases (find_run (map_elements - pages) 0 pages f.map)) [
      | inl n ↦
          let none_of = subst (Finds (map_elements - pages) 0 pages f.map) n found in
          inr ((λ j h. none_of j (omega arith) (omega arith)), ground arith)
      | inr (i, n) ↦
          let first = subst (Finds (map_elements - pages) 0 pages f.map) n found in
          inl (i, omega (arith, first.1), first.2, ground arith)
    ]
