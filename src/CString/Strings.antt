-- ===== src/CString/Strings.antt =====
-- The functions on strings of osrt/c/string.c.
use yomotsu.Base.{
  ℕ, zero, suc, ◌+◌, ◌-◌, ◌≤◌, ◌<◌, ◌≡◌, ◌≢◌, ◌⊎◌, inl, inr, refl, ◌∙◌, arith, ◌==◌, if◌then◌else◌,
  update, Bool-cases, dec_lt, none, some, ◌%◌, u8_mod, ℕ_discrete,
}
use yomotsu.KString.{Memory}
use yomotsu.CString.{
  memcpy_rep_movsb, memset_rep_stosb, memchr_repne_scasb, strlen, strncpy, strcpy, strncat, memchr,
  size_max,
}
use yomotsu.CString.Copy.{memcpy_rep_movsb_lem, memcpy_rep_movsb-outside}

-- The first `c` of the bytes at `s` is at `len`.
pub record FirstAt (s c : ℕ) (m : Memory) (len : ℕ) : Type 0 where
  pub before : (j : ℕ) → j < len → m (s + j) ≢ c
  pub there : m (s + len) ≡ c

FirstAt-next : (s c len : ℕ) (m : Memory) → FirstAt s c m (suc len) → FirstAt (s + 1) c m len
FirstAt-next s c len m f = record {
  before = λ j lt. ground (arith, f.before (suc j));
  there = ground (arith, f.there);
}

-- A scan that reaches the byte counts it.
pub scasb-found :
    (s c n len : ℕ) (m : Memory)
    → FirstAt s c m len
    → len < n
    → memchr_repne_scasb s c n m ≡ len + 1
unfolding memchr_repne_scasb
scasb-found s c zero len m f lt = absurd (omega arith)
scasb-found s c (suc n) zero m f lt = ground (arith, f.there)
scasb-found s c (suc n) (suc len) m f lt =
    ground (arith, f.before 0, scasb-found (s + 1) c n len m (FirstAt-next s c len m f))

pub scasb-missed :
    (s c n len : ℕ) (m : Memory) → FirstAt s c m len → n ≤ len → memchr_repne_scasb s c n m ≡ n
unfolding memchr_repne_scasb
scasb-missed s c zero len m f le = refl
scasb-missed s c (suc n) zero m f le = absurd (omega arith)
scasb-missed s c (suc n) (suc len) m f le =
    ground (arith, f.before 0, scasb-missed (s + 1) c n len m (FirstAt-next s c len m f))

-- The result of `strlen` is one more than the length of the string: it counts the terminator.
pub strlen_lem :
    (s len : ℕ) (m : Memory) → FirstAt s 0 m len → len < size_max → strlen s m ≡ len + 1
unfolding strlen
strlen_lem s len m f lt = scasb-found s 0 size_max len m f lt

memset_rep_stosb-outside :
    (dst c n : ℕ) (m : Memory) (x : ℕ)
    → (x < dst) ⊎ (dst + n ≤ x)
    → memset_rep_stosb dst c n m x ≡ m x
unfolding memset_rep_stosb
memset_rep_stosb-outside dst c zero m x out = refl
memset_rep_stosb-outside dst c (suc n) m x out =
    ground (arith, memset_rep_stosb-outside (dst + 1) c n (update m dst c) x)

memset_rep_stosb_lem :
    (dst c n : ℕ) (m : Memory) (x : ℕ) → dst ≤ x → x < dst + n → memset_rep_stosb dst c n m x ≡ c
unfolding memset_rep_stosb
memset_rep_stosb_lem dst c zero m x lo hi = absurd (omega arith)
memset_rep_stosb_lem dst c (suc n) m x lo hi = elim (ℕ_discrete x dst) [
  | yes e ↦ ground (arith, memset_rep_stosb-outside (dst + 1) c n (update m dst c) x)
  | no ne ↦ memset_rep_stosb_lem (dst + 1) c n (update m dst c) x (omega arith) (omega arith)
]

-- What `strncpy` leaves, with the number of bytes scanned as `len`.
copied_and_filled : ℕ → ℕ → ℕ → ℕ → Memory → Memory
copied_and_filled len s1 s2 n m =
    memset_rep_stosb (s1 + len) 0 (n - len) (memcpy_rep_movsb s1 s2 len m)

strncpy-copied_and_filled :
    (s1 s2 n : ℕ) (m : Memory)
    → strncpy s1 s2 n m ≡ (s1, copied_and_filled (memchr_repne_scasb s2 0 n m) s1 s2 n m)
unfolding strncpy copied_and_filled
strncpy-copied_and_filled s1 s2 n m =
    let len = memchr_repne_scasb s2 0 n m in
    elim (Bool-cases (n - len == 0)) [
      | inl e ↦ let none_left : n - len ≡ 0 = ground arith in rw (e, none_left) refl
      | inr e ↦ rw e refl
    ]

copied_and_filled-chars :
    (len s1 s2 n : ℕ) (m : Memory) (j : ℕ)
    → (s1 + len ≤ s2) ⊎ (s2 + len ≤ s1)
    → j < len
    → copied_and_filled len s1 s2 n m (s1 + j) ≡ m (s2 + j)
unfolding copied_and_filled
copied_and_filled-chars len s1 s2 n m j apart lt =
    memset_rep_stosb-outside (s1 + len) 0 (n - len) (memcpy_rep_movsb s1 s2 len m) (s1 + j)
      (inl (omega arith))
    ∙ memcpy_rep_movsb_lem s1 s2 len m j (elim apart [ inl a ↦ inl (omega arith) | inr a ↦ inr a ])
        lt

copied_and_filled-zeros :
    (len s1 s2 n : ℕ) (m : Memory) (j : ℕ)
    → len ≤ j
    → j < n
    → copied_and_filled len s1 s2 n m (s1 + j) ≡ 0
unfolding copied_and_filled
copied_and_filled-zeros len s1 s2 n m j lo hi =
    memset_rep_stosb_lem (s1 + len) 0 (n - len) (memcpy_rep_movsb s1 s2 len m) (s1 + j)
      (omega arith) (omega arith)

copied_and_filled-outside :
    (len s1 s2 n : ℕ) (m : Memory) (x : ℕ)
    → len ≤ n
    → (x < s1) ⊎ (s1 + n ≤ x)
    → copied_and_filled len s1 s2 n m x ≡ m x
unfolding copied_and_filled
copied_and_filled-outside len s1 s2 n m x le out =
    memset_rep_stosb-outside (s1 + len) 0 (n - len) (memcpy_rep_movsb s1 s2 len m) x
      (elim out [ inl a ↦ inl (omega arith) | inr a ↦ inr (omega arith) ])
    ∙ memcpy_rep_movsb-outside s1 s2 len m x
        (elim out [ inl a ↦ inl a | inr a ↦ inr (omega arith) ])

-- What `strncpy` should leave at `s1`: the chars of the string, zeros up to `n` bytes, and the rest
-- as it was.
pub record Padded (s1 s2 n len : ℕ) (m m' : Memory) : Type 0 where
  pub chars : (j : ℕ) → j < n → j < len → m' (s1 + j) ≡ m (s2 + j)
  pub zeros : (j : ℕ) → j < n → len ≤ j → m' (s1 + j) ≡ 0
  pub unchanged : (x : ℕ) → (x < s1) ⊎ (s1 + n ≤ x) → m' x ≡ m x

copied_and_filled-Padded :
    (s1 s2 n len : ℕ) (m : Memory)
    → FirstAt s2 0 m len
    → (s1 + n ≤ s2) ⊎ (s2 + n ≤ s1)
    → Padded s1 s2 n len m (copied_and_filled (memchr_repne_scasb s2 0 n m) s1 s2 n m)
copied_and_filled-Padded s1 s2 n len m f apart = elim (dec_lt len n) [
  | yes short ↦
      let near : (s1 + (len + 1) ≤ s2) ⊎ (s2 + (len + 1) ≤ s1) = elim apart [
        | inl a ↦ inl (omega arith)
        | inr a ↦ inr (omega arith)
      ] in
      rw (scasb-found s2 0 n len m f short) (record {
        chars = λ j lt l. copied_and_filled-chars (len + 1) s1 s2 n m j near (omega arith);
        zeros = λ j lt l. elim (ℕ_discrete j len) [
          | yes e ↦
              copied_and_filled-chars (len + 1) s1 s2 n m j near (omega arith)
              ∙ ground (arith, f.there)
          | no ne ↦ copied_and_filled-zeros (len + 1) s1 s2 n m j (omega arith) lt
        ];
        unchanged = λ x out. copied_and_filled-outside (len + 1) s1 s2 n m x (omega arith) out;
      })
  | no long ↦ rw (scasb-missed s2 0 n len m f (omega arith)) (record {
    chars = λ j lt l. copied_and_filled-chars n s1 s2 n m j apart lt;
    zeros = λ j lt l. absurd (omega arith);
    unchanged = λ x out. copied_and_filled-outside n s1 s2 n m x (omega arith) out;
  })
]

-- `strncpy` with a string of length `len`, to a buffer that does not meet its first `n` bytes,
-- returns the buffer with the first `n` bytes of the string, filled up with zeros, and changes
-- nothing else.
pub strncpy_lem :
    (s1 s2 n len : ℕ) (m : Memory)
    → FirstAt s2 0 m len
    → (s1 + n ≤ s2) ⊎ (s2 + n ≤ s1)
    → ((strncpy s1 s2 n m).0 ≡ s1) × Padded s1 s2 n len m (strncpy s1 s2 n m).1
strncpy_lem s1 s2 n len m f apart =
    rw (strncpy-copied_and_filled s1 s2 n m) (refl, copied_and_filled-Padded s1 s2 n len m f apart)

-- `strcpy` of a string of length `len`, to a buffer that does not meet it, returns the buffer with
-- the string and its terminator, and changes nothing else.
pub strcpy_lem :
    (s1 s2 len : ℕ) (m : Memory)
    → FirstAt s2 0 m len
    → len < size_max
    → (s1 + len < s2) ⊎ (s2 + len < s1)
    → ((strcpy s1 s2 m).0 ≡ s1) × Padded s1 s2 (len + 1) len m (strcpy s1 s2 m).1
unfolding strcpy
strcpy_lem s1 s2 len m f lt apart = rw (strlen_lem s2 len m f lt) (
    strncpy_lem s1 s2 (len + 1) len m f
      (elim apart [ inl a ↦ inl (omega arith) | inr a ↦ inr (omega arith) ]))

-- `strncat` to a string of length `len` leaves the string as it was: the chars of `s2`, from
-- outside the bytes that are written, come behind the terminator.
pub strncat-hides :
    (s1 s2 n len : ℕ) (m : Memory) (j : ℕ)
    → FirstAt s1 0 m len
    → len < size_max
    → j ≤ len
    → (strncat s1 s2 n m).1 (s1 + j) ≡ m (s1 + j)
unfolding strncat
strncat-hides s1 s2 n len m j f lt le = rw (scasb-found s1 0 size_max len m f lt) (
    ground (
      arith,
      memcpy_rep_movsb-outside (s1 + (len + 1)) s2 (memchr_repne_scasb s2 0 n m) m (s1 + j),
    ))

-- `memchr` of a byte that is first at `len` returns the address behind it, or the null pointer if
-- it is the last of the `n` bytes.
pub memchr_lem :
    (s c n len : ℕ) (m : Memory)
    → FirstAt s (c % u8_mod) m len
    → len < n
    → memchr s c n m ≡ (if len + 1 == n then none else some (s + (len + 1)))
unfolding memchr
memchr_lem s c n len m f lt = rw (scasb-found s (c % u8_mod) n len m f lt) refl
