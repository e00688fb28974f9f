-- ===== src/Frames/Single.antt =====
-- `pma_alloc` and `_pma_alloc_locked` of kernel/k_memory.c: one frame at a time.
use yomotsu.Base.{
  ℕ, zero, suc, ◌+◌, ◌*◌, ◌≤◌, ◌<◌, ◌≡◌, ◌≢◌, ◌⊎◌, inl, inr, refl, ap, Option, none, some, true,
  false, arith, ◌==◌, if◌then◌else◌, update, u8_mod, Option-cases, Bool-cases, subst,
}
use yomotsu.Frames.{
  Frames, Alloc, page_size, map_elements, inc_u8, dec_u8, find_frame, alloc_locked, with_lock,
  take_locked, claim, claim_found, pma_alloc, pma_free, dec_ref_count,
}

-- What `find_frame` finds among the `n` frames from `i` on: the first one that is free.
abbrev pub Finds : ℕ → ℕ → (ℕ → ℕ) → Option ℕ → Type 0
Finds n i m none = (j : ℕ) → i ≤ j → j < i + n → m j ≢ 0
Finds n i m (some k) = (i ≤ k) × (k < i + n) × (m k ≡ 0) × ((j : ℕ) → i ≤ j → j < k → m j ≢ 0)

Finds-later :
    (n i : ℕ) (m : ℕ → ℕ) (r : Option ℕ) → m i ≢ 0 → Finds n (i + 1) m r → Finds (suc n) i m r
Finds-later n i m none ne f = λ j lo hi. grind (arith, f j)
Finds-later n i m (some k) ne f = (omega arith, omega arith, f.2, λ j lo hi. grind (arith, f.3 j))

pub find_frame-Finds : (n i : ℕ) (m : ℕ → ℕ) → Finds n i m (find_frame n i m)
unfolding find_frame
find_frame-Finds zero i m = λ j lo hi. absurd (omega arith)
find_frame-Finds (suc n) i m = elim (Bool-cases (m i == 0)) [
  | inl e ↦
      rw (e, find_frame) (omega arith, omega arith, ground arith, λ j lo hi. absurd (omega arith))
  | inr e ↦
      rw (e, find_frame)
        (Finds-later n i m (find_frame n (i + 1) m) (ground arith) (find_frame-Finds n (i + 1) m))
]

-- All frames are in use.
abbrev pub IsFull : Frames → Type 0
IsFull f = (j : ℕ) → j < map_elements → f.map j ≢ 0

-- The frame `k` is the first one that is free.
abbrev pub FirstFree : ℕ → Frames → Type 0
FirstFree k f = (k < map_elements) × (f.map k ≡ 0) × ((j : ℕ) → j < k → f.map j ≢ 0)

-- With nobody else in it, `pma_alloc` returns the first free frame, and sets its count to 1 and
-- changes nothing else. If all frames are in use it changes nothing: it returns 0, or waits for
-- ever if the lock of the map is held.
pub pma_alloc_lem :
    (f : Frames)
    → ((k : ℕ) × FirstFree k f
        × (pma_alloc f ≡ Alloc.returned (k * page_size) (record f { map = update f.map k 1 })))
      ⊎ (IsFull f × (pma_alloc f ≡ (if f.locked then Alloc.blocked else Alloc.returned 0 f)))
unfolding pma_alloc claim_found claim alloc_locked with_lock take_locked inc_u8
pma_alloc_lem f = elim (Option-cases (find_frame map_elements 0 f.map)) [
  | inl n ↦
      let full = subst (Finds map_elements 0 f.map) n (find_frame-Finds map_elements 0 f.map) in
      inr ((λ j h. full j (omega arith) (omega arith)), ground arith)
  | inr (k, n) ↦
      let first = subst (Finds map_elements 0 f.map) n (find_frame-Finds map_elements 0 f.map) in
      inl (
        k,
        (omega (arith, first.1), first.2, λ j h. first.3 j (omega arith) h),
        rw (n, claim_found)
            (ap (λ m. Alloc.returned (k * page_size) (record f { map = m }))
              (ground (arith, first.2))),
      )
]

-- A frame that `pma_alloc` returned, freed, leaves every count as it was before.
pub alloc-free :
    (f g : Frames) (addr j : ℕ)
    → pma_alloc f ≡ Alloc.returned addr g
    → addr ≢ 0
    → f.map j < u8_mod
    → (pma_free addr page_size g).map j ≡ f.map j
unfolding pma_free dec_ref_count dec_u8
alloc-free f g addr j e ne w = elim (pma_alloc_lem f) [
  | inl (k, first, r) ↦ ground (arith, first.1)
  | inr (full, r) ↦ absurd (ground arith)
]

-- Two processors that both found frame `i` free both return it: the second one takes back its
-- count but does not go on with the search. The count stays 1 for the two of them.
pub claim_twice :
    (i : ℕ) (f : Frames)
    → f.map i ≡ 0
    → let (addr, g) = claim i f in
      let (addr', h) = claim i g in (addr ≡ i * page_size) × (addr' ≡ i * page_size) × (h.map i ≡ 1)
unfolding claim inc_u8 dec_u8
claim_twice i f e = ground arith

-- `_pma_alloc_locked` returns a frame without releasing the lock of the map: the next call of it
-- waits for ever.
pub alloc_locked_twice :
    (f : Frames) (k : ℕ)
    → f.locked ≡ false
    → k < map_elements
    → f.map k ≡ 0
    → (addr : ℕ) × (g : Frames) × (alloc_locked f ≡ Alloc.returned addr g)
      × (alloc_locked g ≡ Alloc.blocked)
unfolding alloc_locked with_lock take_locked
alloc_locked_twice f k free hk e = elim (Option-cases (find_frame map_elements 0 f.map)) [
  | inl n ↦ absurd (
      subst (Finds map_elements 0 f.map) n (find_frame-Finds map_elements 0 f.map) k (omega arith)
        (omega arith) e)
  | inr (i, n) ↦ (
    i * page_size,
    record f { map = update f.map i (inc_u8 (f.map i)); locked = true },
    ground arith,
    refl,
  )
]
