-- ===== src/KString/Strings.antt =====
-- The functions on strings of kernel/k_string.c.
use yomotsu.Base.{
  ℕ, zero, suc, ◌+◌, ◌*◌, ◌%◌, ◌^◌, ◌≤◌, ◌<◌, ◌≡◌, ◌≢◌, ◌⊎◌, ◌↔◌, inl, inr, refl, subst, true,
  false, arith, ◌==◌, ltb, if◌then◌else◌, u64_mod, Bool-cases, zero-add, ℕ_discrete,
}
use yomotsu.KString.{
  Memory, scan, kstrlen, same_chars, kstrequ, kstrcpy, kmemcpy, char_value, hash_loop, kstr_hash,
}
use yomotsu.KString.Blocks.{do_memcpy_lem, do_memcpy-outside}

-- `len` is the length of the string at `str`, or `max` if that is less.
pub record IsLength (max str : ℕ) (m : Memory) (len : ℕ) : Type 0 where
  pub within : len ≤ max
  pub no_nul : (j : ℕ) → j < len → m (str + j) ≢ 0
  pub stops : (len ≡ max) ⊎ (m (str + len) ≡ 0)

scan-IsLength :
    (n ret str : ℕ) (m : Memory)
    → ((j : ℕ) → j < ret → m (str + j) ≢ 0)
    → IsLength (ret + n) str m (scan n m str ret)
unfolding scan
scan-IsLength zero ret str m h = record {
  within = omega arith;
  no_nul = h;
  stops = inl (omega arith);
}
scan-IsLength (suc n) ret str m h = elim (Bool-cases (m (str + ret) == 0)) [
  | inl e ↦ rw (e, scan) (record { within = omega arith; no_nul = h; stops = inr (ground arith) })
  | inr e ↦
      rw (e, scan)
        (subst (λ k. IsLength k str m (scan n m str (ret + 1))) (omega arith)
          (scan-IsLength n (ret + 1) str m (λ j lt. elim (ℕ_discrete j ret) [
            | yes q ↦ rw q (ground arith)
            | no q ↦ h j (omega arith)
          ])))
]

-- `kstrlen` returns the length of the string, without its terminator, or `max_scan` if that is
-- less.
pub kstrlen-IsLength :
    (max_scan str : ℕ) (m : Memory) → IsLength max_scan str m (kstrlen max_scan str m)
unfolding kstrlen
kstrlen-IsLength max_scan str m =
    subst (λ k. IsLength k str m (scan max_scan m str 0)) (zero-add max_scan)
      (scan-IsLength max_scan 0 str m (λ j lt. absurd (omega arith)))

same_chars_iff :
    (n i a b : ℕ) (m : Memory)
    → (same_chars n m a b i ≡ true) ↔ ((j : ℕ) → i ≤ j → j < i + n → m (a + j) ≡ m (b + j))
unfolding same_chars
same_chars_iff zero i a b m = ((λ e j lo hi. absurd (omega arith)), λ h. refl)
same_chars_iff (suc n) i a b m = elim (Bool-cases (m (a + i) == m (b + i))) [
  | inl e ↦
      rw (e, same_chars)
        (
          (λ s j lo hi. elim (ℕ_discrete i j) [
            | yes q ↦ rw (← q) (ground arith)
            | no q ↦ (same_chars_iff n (i + 1) a b m).0 s j (omega arith) (omega arith)
          ]),
          (λ h. (same_chars_iff n (i + 1) a b m).1 (λ j lo hi. h j (omega arith) (omega arith))),
        )
  | inr e ↦ rw (e, same_chars) ((λ s. cc), (λ h. absurd (ground (arith, h i))))
]

-- `kstrequ` is true exactly if the two strings, cut at `max_scan`, have the same length and the
-- same chars.
pub kstrequ_iff :
    (max_scan a b : ℕ) (m : Memory)
    → (kstrequ max_scan a b m ≡ true) ↔ (
        (kstrlen max_scan a m ≡ kstrlen max_scan b m)
        × ((j : ℕ) → j < kstrlen max_scan a m → m (a + j) ≡ m (b + j)))
unfolding kstrequ
kstrequ_iff max_scan a b m =
    let same = same_chars_iff (kstrlen max_scan a m) 0 a b m in
    elim (Bool-cases (kstrlen max_scan a m == kstrlen max_scan b m)) [
      | inl e ↦ rw e (
        (λ s. (ground arith, λ j lt. same.0 s j (omega arith) (omega arith))),
        (λ h. same.1 (λ j lo hi. h.1 j (omega arith))),
      )
      | inr e ↦ rw e ((λ s. cc), (λ h. absurd (ground (arith, h.0))))
    ]

-- Of a string shorter than `max_copy`, into a buffer that does not meet it, `kstrcpy` returns the
-- length and copies the chars, but it leaves the byte behind them as it was, and writes the
-- terminator one byte further on.
pub kstrcpy_lem :
    (max_copy dst src : ℕ) (m : Memory)
    → kstrlen max_copy src m < max_copy
    → (dst + max_copy < src) ⊎ (src + max_copy ≤ dst)
    → let len = kstrlen max_copy src m in
      let r = kstrcpy max_copy dst src m in
      (r.0 ≡ len)
      × ((j : ℕ) → j < len → r.1 (dst + j) ≡ m (src + j))
      × (r.1 (dst + len) ≡ m (dst + len))
      × (r.1 (dst + len + 1) ≡ 0)
unfolding kstrcpy kmemcpy
kstrcpy_lem max_copy dst src m short apart =
    let len = kstrlen max_copy src m in
    let ne : (len == max_copy) ≡ false = ground arith in
    let far : (dst ≤ src) ⊎ (src + len ≤ dst) = elim apart [
      | inl l ↦ inl (omega arith)
      | inr r ↦ inr (omega arith)
    ] in
    rw ne (
      refl,
      (λ j lt. ground (arith, do_memcpy_lem dst src len m j far lt)),
      ground (arith, do_memcpy-outside dst src len m (dst + len)),
      ground arith,
    )

-- The hash of a string in numbers without bound: 33 times the hash so far, and the value of the
-- next char.
abbrev pub djbx33a : (ℕ → ℕ) → ℕ → ℕ → Memory → ℕ → ℕ
djbx33a value zero str m h = h
djbx33a value (suc n) str m h = djbx33a value n (str + 1) m (33 * h + value (m str))

-- A byte as a number from 0 on, and by how much it is above the signed char that it stands for.
abbrev pub byte_value : ℕ → ℕ
byte_value c = c

abbrev pub above_signed : ℕ → ℕ
above_signed c = if ltb c 128 then 0 else 256

hash_loop_lem :
    (n str : ℕ) (m : Memory) (h : ℕ)
    → hash_loop n str m (h % u64_mod) ≡ djbx33a char_value n str m h % u64_mod
unfolding hash_loop
hash_loop_lem zero str m h = refl
hash_loop_lem (suc n) str m h =
    let step : (h % u64_mod * 2 ^ 5 % u64_mod + h % u64_mod + char_value (m str)) % u64_mod
        ≡ (33 * h + char_value (m str)) % u64_mod =
      omega arith in
    rw step (hash_loop_lem n (str + 1) m (33 * h + char_value (m str)))

-- A signed char and what the byte is above it make the byte.
char_value_lem : (c : ℕ) → (char_value c + above_signed c) % u64_mod ≡ c % u64_mod
unfolding char_value
char_value_lem c = ground arith

signed_step :
    (h1 h2 h v a c : ℕ)
    → (h1 + h2) % u64_mod ≡ h % u64_mod
    → (v + a) % u64_mod ≡ c % u64_mod
    → (33 * h1 + v + (33 * h2 + a)) % u64_mod ≡ (33 * h + c) % u64_mod
signed_step h1 h2 h v a c e f = omega arith

djbx33a-signed :
    (n str : ℕ) (m : Memory) (h1 h2 h : ℕ)
    → (h1 + h2) % u64_mod ≡ h % u64_mod
    → (djbx33a char_value n str m h1 + djbx33a above_signed n str m h2) % u64_mod
      ≡ djbx33a byte_value n str m h % u64_mod
djbx33a-signed zero str m h1 h2 h e = e
djbx33a-signed (suc n) str m h1 h2 h e =
    let char = char_value_lem (m str) in
    let step : (33 * h1 + char_value (m str) + (33 * h2 + above_signed (m str))) % u64_mod
        ≡ (33 * h + m str) % u64_mod =
      signed_step h1 h2 h (char_value (m str)) (above_signed (m str)) (m str) e char in
    djbx33a-signed n (str + 1) m (33 * h1 + char_value (m str)) (33 * h2 + above_signed (m str))
      (33 * h + m str) step

-- `kstr_hash`, which wraps around at each step, is modulo 2 ^ 64 the DJBX33A hash of the chars as
-- signed numbers, each of them the byte less 256 if that is 128 or more: with the hash of these 256s
-- added it is the hash of the bytes.
pub kstr_hash_lem :
    (str strlen : ℕ) (m : Memory)
    → (kstr_hash str strlen m + djbx33a above_signed strlen str m 0) % u64_mod
      ≡ djbx33a byte_value strlen str m 0 % u64_mod
unfolding kstr_hash
kstr_hash_lem str strlen m =
    let whole = djbx33a-signed strlen str m 0 0 0 refl in
    let hash = hash_loop_lem strlen str m 0 in omega (arith, whole, hash)
