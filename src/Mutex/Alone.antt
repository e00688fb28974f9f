-- ===== src/Mutex/Alone.antt =====
-- `mutex_acquire_dual` and `mutex_release_dual` of kernel/k_mutex.c with nobody else running.
use yomotsu.Base.{
  ℕ, zero, suc, ◌≡◌, ◌≢◌, ◌⊎◌, inl, inr, refl, false, none, some, List, [], ◌∷◌, arith, ◌==◌, ◌||◌,
  if◌then◌else◌, sym, update, ltb, ℕ_discrete, Bool-cases,
}
use yomotsu.Mutex.{
  mutex_try_acquire, mutex_release, mutex_acquire, dual_order, dual_release, acquire_all,
  release_all, mutex_acquire_dual, mutex_release_dual,
}

acquire_free : (n p o : ℕ) → o ≡ 0 → mutex_acquire (suc n) p o ≡ some p
unfolding mutex_acquire mutex_try_acquire
acquire_free n p o e = ground arith

acquire_held : (n p o : ℕ) → o ≢ 0 → mutex_acquire n p o ≡ none
unfolding mutex_acquire mutex_try_acquire
acquire_held zero p o ne = refl
acquire_held (suc n) p o ne =
    let busy : (o == 0) ≡ false = ground arith in rw busy (acquire_held n p o ne)

release_own : (p o : ℕ) → o ≡ p → mutex_release p o ≡ some 0
unfolding mutex_release
release_own p o e = ground arith

-- One mutex, taken and given back.
pub single_lem :
    (n p a : ℕ) (owners : ℕ → ℕ)
    → owners a ≡ 0
    → (owners' : ℕ → ℕ) × (acquire_all (suc n) p (a ∷ []) owners ≡ some owners')
      × ((owners2 : ℕ → ℕ) × (release_all p (a ∷ []) owners' ≡ some owners2)
          × ((m : ℕ) → owners2 m ≡ owners m))
unfolding acquire_all release_all
single_lem n p a owners free =
    let owners' = update owners a p in
    let back = release_own p (owners' a) (ground arith) in
    (
      owners',
      rw (acquire_free n p (owners a) free, acquire_all) refl,
      (update owners' a 0, rw (back, release_all) refl, λ m. ground arith),
    )

acquire_two :
    (n p a b : ℕ) (owners : ℕ → ℕ)
    → owners a ≡ 0
    → owners b ≡ 0
    → a ≢ b
    → acquire_all (suc n) p (a ∷ b ∷ []) owners ≡ some (update (update owners a p) b p)
unfolding acquire_all
acquire_two n p a b owners free free' ne =
    let first = acquire_free n p (owners a) free in
    let second = acquire_free n p (update owners a p b) (ground arith) in
    rw (first, acquire_all, second, acquire_all) refl

acquire_first :
    (n p a b : ℕ) (owners : ℕ → ℕ) → owners a ≢ 0 → acquire_all n p (a ∷ b ∷ []) owners ≡ none
unfolding acquire_all
acquire_first n p a b owners busy = rw (acquire_held n p (owners a) busy, acquire_all) refl

acquire_none : (p a : ℕ) (ms : List ℕ) (owners : ℕ → ℕ) → acquire_all zero p (a ∷ ms) owners ≡ none
unfolding acquire_all mutex_acquire
acquire_none p a ms owners = refl

taken_is : (p a b : ℕ) (owners : ℕ → ℕ) → p ≢ 0 → (owners b ≢ 0) ⊎ (a ≡ b) → update owners a p b ≢ 0
taken_is p a b owners ne (inl busy) = ground arith
taken_is p a b owners ne (inr same) = ground arith

acquire_second :
    (n p a b : ℕ) (owners : ℕ → ℕ)
    → p ≢ 0
    → (owners b ≢ 0) ⊎ (a ≡ b)
    → acquire_all n p (a ∷ b ∷ []) owners ≡ none
unfolding acquire_all
acquire_second zero p a b owners ne busy = acquire_none p a (b ∷ []) owners
acquire_second (suc n) p a b owners ne busy = elim (ℕ_discrete (owners a) 0) [
  | no held ↦ acquire_first (suc n) p a b owners held
  | yes free ↦
      let first = acquire_free n p (owners a) free in
      let second = acquire_held (suc n) p (update owners a p b) (taken_is p a b owners ne busy) in
      rw (first, acquire_all, second, acquire_all) refl
]

release_two :
    (p a b : ℕ) (owners : ℕ → ℕ)
    → owners a ≡ p
    → owners b ≡ p
    → a ≢ b
    → release_all p (a ∷ b ∷ []) owners ≡ some (update (update owners a 0) b 0)
unfolding release_all
release_two p a b owners mine mine' ne =
    let first = release_own p (owners a) mine in
    let second = release_own p (update owners a 0 b) (ground arith) in
    rw (first, release_all, second, release_all) refl

-- Two mutexes taken in the order `a`, `b` and given back in the reverse order.
abbrev Taken : ℕ → ℕ → ℕ → ℕ → (ℕ → ℕ) → Type 0
Taken n p a b owners =
    (owners' : ℕ → ℕ) × (acquire_all (suc n) p (a ∷ b ∷ []) owners ≡ some owners')
    × ((m : ℕ) → owners' m ≡ (if (m == a) || (m == b) then p else owners m))
    × ((owners2 : ℕ → ℕ) × (release_all p (b ∷ a ∷ []) owners' ≡ some owners2)
        × ((m : ℕ) → owners2 m ≡ owners m))

pair_lem :
    (n p a b : ℕ) (owners : ℕ → ℕ) → owners a ≡ 0 → owners b ≡ 0 → a ≢ b → Taken n p a b owners
pair_lem n p a b owners free free' ne =
    let owners' = update (update owners a p) b p in
    (
      owners',
      acquire_two n p a b owners free free' ne,
      λ m. ground arith,
      (
        update (update owners' b 0) a 0,
        release_two p b a owners' (ground arith) (ground arith) (λ x. ne (sym x)),
        λ m. ground arith,
      ),
    )

-- Why two mutexes are not both taken.
abbrev Busy : (ℕ → ℕ) → ℕ → ℕ → Type 0
Busy owners a b = (owners a ≢ 0) ⊎ ((owners b ≢ 0) ⊎ (a ≡ b))

stuck :
    (k p a b : ℕ) (owners : ℕ → ℕ)
    → p ≢ 0
    → Busy owners a b
    → acquire_all k p (a ∷ b ∷ []) owners ≡ none
stuck k p a b owners ne (inl busy) = acquire_first k p a b owners busy
stuck k p a b owners ne (inr busy) = acquire_second k p a b owners ne busy

pair_cases :
    (owners : ℕ → ℕ) (a b : ℕ) → ((owners a ≡ 0) × (owners b ≡ 0) × (a ≢ b)) ⊎ Busy owners a b
pair_cases owners a b = ground arith

Busy-sym : (owners : ℕ → ℕ) (a b : ℕ) → Busy owners a b → Busy owners b a
Busy-sym owners a b (inl busy) = inr (inl busy)
Busy-sym owners a b (inr (inl busy)) = inl busy
Busy-sym owners a b (inr (inr same)) = inr (inr (sym same))

swapped :
    (n p a b : ℕ) (owners : ℕ → ℕ)
    → Taken n p b a owners
    → (owners' : ℕ → ℕ) × (acquire_all (suc n) p (b ∷ a ∷ []) owners ≡ some owners')
      × ((m : ℕ) → owners' m ≡ (if (m == a) || (m == b) then p else owners m))
      × ((owners2 : ℕ → ℕ) × (release_all p (a ∷ b ∷ []) owners' ≡ some owners2)
          × ((m : ℕ) → owners2 m ≡ owners m))
swapped n p a b owners (owners', t, set, r) =
    (owners', t, (λ m. let was = set m in ground arith), r)

-- With nobody else running, `mutex_acquire_dual` takes two different mutexes if both are free, at the
-- first try, and `mutex_release_dual` then leaves every mutex as it was. If one of them is owned, by
-- whomever, or if the two are the same mutex, it never returns.
pub mutex_acquire_dual_lem :
    (n p m1 m2 : ℕ) (owners : ℕ → ℕ)
    → p ≢ 0
    → ((owners m1 ≡ 0)
        × (owners m2 ≡ 0)
        × (m1 ≢ m2)
        × ((owners' : ℕ → ℕ) × (mutex_acquire_dual (suc n) p m1 m2 owners ≡ some owners')
            × ((m : ℕ) → owners' m ≡ (if (m == m1) || (m == m2) then p else owners m))
            × ((owners2 : ℕ → ℕ) × (mutex_release_dual p m1 m2 owners' ≡ some owners2)
                × ((m : ℕ) → owners2 m ≡ owners m))))
      ⊎ (((owners m1 ≢ 0) ⊎ ((owners m2 ≢ 0) ⊎ (m1 ≡ m2)))
          × ((k : ℕ) → mutex_acquire_dual k p m1 m2 owners ≡ none))
unfolding mutex_acquire_dual mutex_release_dual dual_order dual_release
mutex_acquire_dual_lem n p m1 m2 owners ne = elim (pair_cases owners m1 m2) [
  | inl (free, free', d) ↦ inl (
    free,
    free',
    d,
    elim (Bool-cases (ltb m1 m2)) [
      | inl e ↦ rw e (pair_lem n p m1 m2 owners free free' d)
      | inr e ↦
          rw e (swapped n p m1 m2 owners (pair_lem n p m2 m1 owners free' free (λ x. d (sym x))))
    ],
  )
  | inr busy ↦ inr (
    busy,
    λ k. elim (Bool-cases (ltb m1 m2)) [
      | inl e ↦ rw e (stuck k p m1 m2 owners ne busy)
      | inr e ↦ rw e (stuck k p m2 m1 owners ne (Busy-sym owners m1 m2 busy))
    ],
  )
]
