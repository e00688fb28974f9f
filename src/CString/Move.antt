-- ===== src/CString/Move.antt =====
-- `memmove` of osrt/c/string.c.
use yomotsu.Base.{
  ℕ, zero, suc, ◌+◌, ◌-◌, ◌*◌, ◌≤◌, ◌<◌, ◌≡◌, ◌⊎◌, inl, inr, refl, subst, zero-add, true, false,
  arith, leb, ltb, ◌==◌, Bool-cases, dec_lt, Option, some,
}
use native.Mathlib.Numerals.{unary_clauses}
use yomotsu.KString.{Memory}
use yomotsu.CString.{memcpy_rep_movsb, chunk_size, move_up, move_down, move_block, memmove}
use yomotsu.CString.Copy.{Moved, Moved-copy, Moved-up, Moved-down, Moved-none, Moved-clip}

-- The outcome of a loop or of the whole: it ends, with the bytes moved.
abbrev pub Moves : ℕ → ℕ → ℕ → ℕ → Memory → Option Memory → Type 0
Moves s1 s2 lo hi m r = (m' : Memory) × (r ≡ some m') × Moved s1 s2 lo hi m m'

-- The chunk ends at the end of the block or is as long as the overlap.
chunk_size-cases :
    (n overlap moved : ℕ)
    → moved < n
    → (((moved + chunk_size n overlap moved ≡ n) × (n ≤ moved + overlap))
        ⊎ ((chunk_size n overlap moved ≡ overlap) × (moved + overlap ≤ n)))
unfolding chunk_size
chunk_size-cases n overlap moved lt = elim (dec_lt (n - moved) overlap) [
  | yes l ↦ inl (ground arith)
  | no l ↦ inr (ground arith)
]

chunk_size-small :
    (n overlap moved : ℕ)
    → moved < n
    → (chunk_size n overlap moved ≤ n - moved) × (chunk_size n overlap moved ≤ overlap)
unfolding chunk_size
chunk_size-small n overlap moved lt = elim (dec_lt (n - moved) overlap) [
  | yes l ↦ ground arith
  | no l ↦ ground arith
]

move_up-Moves :
    (fuel s1 s2 n overlap moved : ℕ) (m : Memory)
    → s1 ≤ s2
    → 1 ≤ overlap
    → n - moved < fuel
    → Moves s1 s2 moved n m (move_up fuel s1 s2 n overlap moved m)
unfolding move_up
move_up-Moves zero s1 s2 n overlap moved m front pos f = absurd (omega arith)
move_up-Moves (suc fuel) s1 s2 n overlap moved m front pos f = elim (dec_lt moved n) [
  | no end ↦
      let stop : ltb moved n ≡ false = ground arith in
      rw (stop, move_up) (m, refl, Moved-none s1 s2 moved n m (omega arith))
  | yes more ↦
      let go : ltb moved n ≡ true = ground arith in
      let c = chunk_size n overlap moved in
      let m1 = memcpy_rep_movsb (s1 + moved) (s2 + moved) c m in
      let ih = move_up-Moves fuel s1 s2 n overlap (moved + overlap) m1 front pos (omega arith) in
      let copy = Moved-copy s1 s2 moved c m (inl front) in
      rw (go, move_up)
        (
          ih.0,
          ih.1,
          elim (chunk_size-cases n overlap moved more) [
            | inl last ↦
                Moved-up s1 s2 moved n n m m1 ih.0 front (omega arith) (omega arith)
                  (subst (λ k. Moved s1 s2 moved k m m1) last.0 copy)
                  (Moved-clip s1 s2 (moved + overlap) n m1 ih.0 last.1 ih.2)
            | inr full ↦
                Moved-up s1 s2 moved (moved + overlap) n m m1 ih.0 front (omega arith) full.1
                  (subst (λ k. Moved s1 s2 moved (moved + k) m m1) full.0 copy) ih.2
          ],
        )
]

-- Downwards, each chunk lies apart from its new place.
move_down-Moves :
    (fuel s1 s2 n overlap moved : ℕ) (m : Memory)
    → s2 + overlap ≤ s1
    → 1 ≤ overlap
    → n - moved < fuel
    → Moves s1 s2 0 (n - moved) m (move_down fuel s1 s2 n overlap moved m)
unfolding move_down
move_down-Moves zero s1 s2 n overlap moved m apart pos f = absurd (omega arith)
move_down-Moves (suc fuel) s1 s2 n overlap moved m apart pos f = elim (dec_lt moved n) [
  | no end ↦
      let stop : ltb moved n ≡ false = ground arith in
      rw (stop, move_down) (m, refl, Moved-none s1 s2 0 (n - moved) m (omega arith))
  | yes more ↦
      let go : ltb moved n ≡ true = ground arith in
      let c = chunk_size n overlap moved in
      let small = chunk_size-small n overlap moved more in
      let m1 = memcpy_rep_movsb (s1 + n - moved - c) (s2 + n - moved - c) c m in
      let ih = move_down-Moves fuel s1 s2 n overlap (moved + overlap) m1 apart pos (omega arith) in
      let to : s1 + (n - moved - c) ≡ s1 + n - moved - c = omega (arith, small) in
      let from : s2 + (n - moved - c) ≡ s2 + n - moved - c = omega (arith, small) in
      let top : n - moved - c + c ≡ n - moved = omega (arith, small) in
      let rest : n - (moved + overlap) ≡ n - moved - c =
        omega (arith, chunk_size-cases n overlap moved more) in
      let copy : Moved s1 s2 (n - moved - c) (n - moved) m m1 =
        rw (← to, ← from)
          (subst
            (λ k.
              Moved s1 s2 (n - moved - c) k m
                (memcpy_rep_movsb (s1 + (n - moved - c)) (s2 + (n - moved - c)) c m))
            top (Moved-copy s1 s2 (n - moved - c) c m (inr (omega (arith, small))))) in
      rw (go, move_down)
        (
          ih.0,
          ih.1,
          Moved-down s1 s2 0 (n - moved - c) (n - moved) m m1 ih.0 (omega arith) (omega arith)
              (omega arith) copy (subst (λ k. Moved s1 s2 0 k m1 ih.0) rest ih.2),
        )
]

copied :
    (s1 s2 n : ℕ) (m : Memory)
    → (s1 ≤ s2) ⊎ (s2 + n ≤ s1)
    → Moves s1 s2 0 n m (some (memcpy_rep_movsb s1 s2 n m))
copied s1 s2 n m far = (
  memcpy_rep_movsb s1 s2 n m,
  refl,
  subst (λ k. Moved s1 s2 0 k m (memcpy_rep_movsb s1 s2 n m)) (zero-add n)
      (simp unary_clauses at (Moved-copy s1 s2 0 n m far)),
)

move_block-Moves :
    (s1 s2 n : ℕ) (m : Memory)
    → (s1 ≤ s2) ⊎ (n ≤ 2 * (s1 - s2))
    → Moves s1 s2 0 n m (move_block s1 s2 n m)
unfolding move_block
move_block-Moves s1 s2 n m well = elim (dec_lt s1 s2) [
  | yes up ↦
      let ne : (s1 == s2) ≡ false = ground arith in
      let lt : ltb s1 s2 ≡ true = ground arith in
      let gt : ltb s2 s1 ≡ false = ground arith in
      elim (Bool-cases (leb (s1 + n) s2)) [
        | inl e ↦ rw (ne, lt, e) (copied s1 s2 n m (inl (omega arith)))
        | inr e ↦
            let long : 1 ≤ s1 + n - s2 = ground arith in
            rw (ne, lt, e, gt)
              (move_up-Moves (n + 1) s1 s2 n (s1 + n - s2) 0 m (omega arith) long (omega arith))
      ]
  | no nup ↦ elim (dec_lt s2 s1) [
    | no ndown ↦
        let same : s1 ≡ s2 = omega arith in
        let eq : (s1 == s2) ≡ true = ground arith in
        rw eq (m, refl, record { arrived = λ j l h. rw same refl; unchanged = λ x out. refl })
    | yes down ↦
        let half : n ≤ 2 * (s1 - s2) = elim well [ inl a ↦ absurd (omega arith) | inr a ↦ a ] in
        let ne : (s1 == s2) ≡ false = ground arith in
        let lt : ltb s1 s2 ≡ false = ground arith in
        let gt : ltb s2 s1 ≡ true = ground arith in
        elim (Bool-cases (leb (s2 + n) s1)) [
          | inl e ↦
              let far : s2 + n ≤ s1 = ground arith in
              rw (ne, lt, gt, e) (copied s1 s2 n m (inr far))
          | inr e ↦
              let long : 1 ≤ s2 + n - s1 = ground arith in
              let whole : n - 0 ≡ n = omega arith in
              rw (ne, lt, gt, e)
                (subst (λ k. Moves s1 s2 0 k m (move_down (n + 1) s1 s2 n (s2 + n - s1) 0 m)) whole
                  (move_down-Moves (n + 1) s1 s2 n (s2 + n - s1) 0 m (omega arith) long
                    (omega arith)))
        ]
  ]
]

-- `memmove` returns `s1`, with the bytes of the block at `s2` in the block there and all others as
-- they were, if the destination starts at or below the source, or if the blocks overlap by at most
-- half of their size.
pub memmove_lem :
    (s1 s2 n : ℕ) (m : Memory)
    → (s1 ≤ s2) ⊎ (n ≤ 2 * (s1 - s2))
    → (m' : Memory) × (memmove s1 s2 n m ≡ some (s1, m')) × Moved s1 s2 0 n m m'
unfolding memmove
memmove_lem s1 s2 n m well =
    let r = move_block-Moves s1 s2 n m well in (r.0, rw (r.1, memmove) refl, r.2)
