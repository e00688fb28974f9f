-- ===== src/KString/Blocks.antt =====
-- The functions on blocks of memory of kernel/k_string.c.
use yomotsu.Base.{
  ℕ, zero, suc, ◌+◌, ◌-◌, ◌*◌, ◌≤◌, ◌<◌, ◌≡◌, ◌⊎◌, inl, inr, refl, ap, ◌∙◌, true, ◌&&◌, arith, leb,
  ◌==◌, if◌then◌else◌, update, Bool-cases, dec_lt,
}
use yomotsu.KString.{Memory, do_memcpy, kmemcpy, kmemmov}

pub do_memcpy-outside :
    (dst src n : ℕ) (m : Memory) (x : ℕ) → (x < dst) ⊎ (dst + n ≤ x) → do_memcpy dst src n m x ≡ m x
unfolding do_memcpy
do_memcpy-outside dst src zero m x out = refl
do_memcpy-outside dst src (suc n) m x out =
    ground (arith, do_memcpy-outside (dst + 1) (src + 1) n (update m dst (m src)) x)

-- An upward copy to a block that starts below the source, or that does not meet it.
pub do_memcpy_lem :
    (dst src n : ℕ) (m : Memory) (j : ℕ)
    → (dst ≤ src) ⊎ (src + n ≤ dst)
    → j < n
    → do_memcpy dst src n m (dst + j) ≡ m (src + j)
unfolding do_memcpy
do_memcpy_lem dst src zero m j far lt = absurd (omega arith)
do_memcpy_lem dst src (suc n) m zero far lt =
    ground (arith, do_memcpy-outside (dst + 1) (src + 1) n (update m dst (m src)) dst)
do_memcpy_lem dst src (suc n) m (suc j) far lt =
    ground (arith, do_memcpy_lem (dst + 1) (src + 1) n (update m dst (m src)) j)

-- An upward copy to a block that starts in the source: where the copy reaches its own first byte,
-- it copies that byte again.
do_memcpy-smears :
    (dst src n : ℕ) (m : Memory) (k : ℕ)
    → src < dst
    → k ≤ dst - src
    → k < n
    → do_memcpy dst src n m (dst + k) ≡ (if k == dst - src then m src else m (src + k))
unfolding do_memcpy
do_memcpy-smears dst src zero m k up le lt = absurd (omega arith)
do_memcpy-smears dst src (suc n) m zero up le lt =
    ground (arith, do_memcpy-outside (dst + 1) (src + 1) n (update m dst (m src)) dst)
do_memcpy-smears dst src (suc n) m (suc k) up le lt =
    ground (arith, do_memcpy-smears (dst + 1) (src + 1) n (update m dst (m src)) k)

pub kmemcpy-outside :
    (dst src n : ℕ) (m : Memory) (x : ℕ) → (x < dst) ⊎ (dst + n ≤ x) → kmemcpy dst src n m x ≡ m x
unfolding kmemcpy
kmemcpy-outside dst src n m x out = do_memcpy-outside dst src n m x out

pub kmemcpy_lem :
    (dst src n : ℕ) (m : Memory) (j : ℕ)
    → (dst ≤ src) ⊎ (src + n ≤ dst)
    → j < n
    → kmemcpy dst src n m (dst + j) ≡ m (src + j)
unfolding kmemcpy
kmemcpy_lem dst src n m j far lt = do_memcpy_lem dst src n m j far lt

-- The part of the source that `kmemmov` moves out of the way may lie on its own new place; that it
-- does not is the third case.
abbrev pub MovesWell : ℕ → ℕ → ℕ → Type 0
MovesWell dst src size = (dst ≤ src) ⊎ ((src + size ≤ dst) ⊎ (src + size ≤ dst + (dst - src)))

moved_aside :
    (dst src size : ℕ)
    → (src ≤ dst) × (dst ≤ src + size)
    → MovesWell dst src size
    → (dst + (dst - src) ≤ dst) ⊎ (dst + (src + size - dst) ≤ dst + (dst - src))
moved_aside dst src size meets (inl l) = inl (omega (arith, meets.0))
moved_aside dst src size meets (inr (inl r)) = inr (omega (arith, meets.1))
moved_aside dst src size meets (inr (inr r)) = inr (omega (arith, meets.1))

moved_lem :
    (dst src size : ℕ) (m : Memory) (j : ℕ)
    → (src ≤ dst) × (dst ≤ src + size)
    → MovesWell dst src size
    → j < size
    → do_memcpy dst src
        (dst - src)
        (do_memcpy (dst + (dst - src)) dst (src + size - dst) m)
        (dst + j)
      ≡ m (src + j)
moved_lem dst src size m j meets well lt =
    let d = dst - src in
    let m1 = do_memcpy (dst + d) dst (src + size - dst) m in
    elim (dec_lt j d) [
      | yes low ↦
          do_memcpy_lem dst src d m1 j (inr (omega arith)) low
          ∙ do_memcpy-outside (dst + d) dst (src + size - dst) m (src + j) (inl (omega arith))
      | no high ↦
          let place : dst + j ≡ dst + d + (j - d) = omega arith in
          let from : dst + (j - d) ≡ src + j = omega (arith, meets.0) in
          do_memcpy-outside dst src d m1 (dst + j) (inr (omega arith))
          ∙ ap m1 place
          ∙ do_memcpy_lem (dst + d) dst (src + size - dst) m (j - d)
              (moved_aside dst src size meets well) (omega (arith, meets.0))
          ∙ ap m from
    ]

-- `kmemmov` moves a block right if the destination starts at or below the source, or at or behind
-- its end, or in its second half.
pub kmemmov_lem :
    (dst src size : ℕ) (m : Memory) (j : ℕ)
    → MovesWell dst src size
    → j < size
    → kmemmov dst src size m (dst + j) ≡ m (src + j)
unfolding kmemmov
kmemmov_lem dst src size m j well lt = elim (Bool-cases (leb src dst && leb dst (src + size))) [
  | inr e ↦ rw e (do_memcpy_lem dst src size m j (ground arith) lt)
  | inl e ↦ rw e (moved_lem dst src size m j (ground arith) well lt)
]

-- With a destination in the first half of the source, but not at its start, `kmemmov` goes wrong:
-- where the byte `2 * (dst - src)` of the block should arrive, there is the byte `dst - src`.
pub kmemmov_smears :
    (dst src size : ℕ) (m : Memory)
    → src < dst
    → dst + (dst - src) < src + size
    → kmemmov dst src size m (dst + 2 * (dst - src)) ≡ m (src + (dst - src))
unfolding kmemmov
kmemmov_smears dst src size m up half =
    let d = dst - src in
    let m1 = do_memcpy (dst + d) dst (src + size - dst) m in
    let overlap : (leb src dst && leb dst (src + size)) ≡ true = ground arith in
    let place : dst + 2 * d ≡ dst + d + d = omega arith in
    let from : dst ≡ src + d = omega arith in
    rw overlap (
      do_memcpy-outside dst src d m1 (dst + 2 * d) (inr (omega arith))
      ∙ ap m1 place
      ∙ do_memcpy-smears (dst + d) dst (src + size - dst) m d (omega arith) (omega arith)
          (omega arith)
      ∙ ground (arith, ap m from))
