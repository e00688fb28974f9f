-- ===== src/Pid/Bitmap.antt =====
-- What the bitmap of kernel/k_proc.c allocates.
use yomotsu.Base.{
  ℕ, zero, suc, ◌+◌, ◌-◌, ◌/◌, ◌%◌, ◌≤◌, ◌<◌, ◌≡◌, ◌≢◌, inl, inr, refl, Bool, true, false, Option,
  none, some, arith, u64_mod, Option-cases, Bool-cases,
}
use yomotsu.Pid.{
  bitmap_size, PidBitmap, pid_bitmap_set, pid_bitmap_clear, clear_bit, clear_word, take_pid,
  alloc_pid, free_pid,
}

-- Where `clear_bit` stops among the `n` bits from `i` on.
abbrev Stops : ℕ → ℕ → (ℕ → Bool) → Option ℕ → Type 0
Stops n i word none = (j : ℕ) → i ≤ j → j < i + n → word j ≡ true
Stops n i word (some k) =
    (i ≤ k) × (k < i + n) × (word k ≡ false) × ((j : ℕ) → i ≤ j → j < k → word j ≡ true)

Stops-later :
    (n i : ℕ) (word : ℕ → Bool) (r : Option ℕ)
    → word i ≡ true
    → Stops n (i + 1) word r
    → Stops (suc n) i word r
Stops-later n i word none e f = λ j lo hi. grind (arith, f j)
Stops-later n i word (some k) e f = (omega arith, omega arith, f.2, λ j lo hi. grind (arith, f.3 j))

clear_bit-Stops : (n i : ℕ) (word : ℕ → Bool) → Stops n i word (clear_bit n i word)
unfolding clear_bit
clear_bit-Stops zero i word = λ j lo hi. absurd (omega arith)
clear_bit-Stops (suc n) i word = elim (Bool-cases (word i)) [
  | inl e ↦
      rw (e, clear_bit)
        (Stops-later n i word (clear_bit n (i + 1) word) e (clear_bit-Stops n (i + 1) word))
  | inr e ↦ rw (e, clear_bit) (omega arith, omega arith, e, λ j lo hi. absurd (omega arith))
]

-- The low 8 bits of the first word are set and the next one is clear.
abbrev pub IsStuck : PidBitmap → Type 0
IsStuck b = ((j : ℕ) → j < 8 → b 0 j ≡ true) × (b 0 8 ≡ false)

stuck_bit : (b : PidBitmap) → IsStuck b → clear_bit 64 0 (b 0) ≡ some 8
stuck_bit b s = go (clear_bit 64 0 (b 0)) (clear_bit-Stops 64 0 (b 0))
  where
    go : (r : Option ℕ) → Stops 64 0 (b 0) r → r ≡ some 8
    go none f = absurd (ground (arith, f 8))
    go (some k) f = grind (arith, f.3 8, s.0 k)

stuck_word : (n : ℕ) (b : PidBitmap) → IsStuck b → clear_word (suc n) 0 b ≡ some (0, 8)
unfolding clear_word
stuck_word n b s = rw (stuck_bit b s, clear_word) refl

-- Once the low 8 bits of the first word are set and the ninth is clear, `alloc_pid` returns 9, and
-- leaves a bitmap of which the same holds.
pub alloc_pid_repeats :
    (b : PidBitmap) → IsStuck b → ((alloc_pid b).0 ≡ 9) × IsStuck (alloc_pid b).1
unfolding alloc_pid take_pid pid_bitmap_set
alloc_pid_repeats b s = rw (stuck_word 511 b s, alloc_pid, take_pid) (refl, s)

-- Right after `alloc_pid` returned an identifier other than -1, `free_pid` of this identifier
-- leaves the bit that the allocation set still set.
pub free_pid_keeps_bit :
    (b : PidBitmap)
    → (alloc_pid b).0 ≢ u64_mod - 1
    → free_pid
        (alloc_pid b).0
        (alloc_pid b).1
        (((alloc_pid b).0 - 1) / 8)
        (((alloc_pid b).0 - 1) % 8)
      ≡ true
unfolding alloc_pid take_pid pid_bitmap_set free_pid pid_bitmap_clear
free_pid_keeps_bit b ne = elim (Option-cases (clear_word bitmap_size 0 b)) [
  | inl n ↦ absurd (ne (rw (n, alloc_pid, take_pid) refl))
  | inr (p, n) ↦ rw (n, alloc_pid, take_pid) (ground arith)
]
