-- ===== src/KString/Texts.antt =====
-- Strings of kernel/k_string.c as texts: what `kstrlen`, `kstrequ` and `kstr_hash` read of them.
use yomotsu.Base.{
  ℕ, zero, suc, ◌+◌, ◌≤◌, ◌<◌, ◌≡◌, inl, inr, refl, true, arith, ◌∙◌, sym, ap, Bool-cases, dec_lt,
}
use yomotsu.KString.{Memory, kstrlen, kstrequ, hash_loop, kstr_hash}
use yomotsu.KString.Strings.{IsLength, kstrlen-IsLength, kstrequ_iff}

-- The two strings, cut at `max`, have the same text.
abbrev pub SameText : ℕ → Memory → ℕ → Memory → ℕ → Type 0
SameText max m a m' b =
    (kstrlen max a m ≡ kstrlen max b m') × ((j : ℕ) → j < kstrlen max a m → m (a + j) ≡ m' (b + j))

pub SameText-sym :
    (max : ℕ) (m m' : Memory) (a b : ℕ) → SameText max m a m' b → SameText max m' b m a
SameText-sym max m m' a b s = (sym s.0, λ j lt. sym (s.1 j (omega (arith, s.0))))

pub SameText-trans :
    (max : ℕ) (m m' m2 : Memory) (a b c : ℕ)
    → SameText max m a m' b
    → SameText max m' b m2 c
    → SameText max m a m2 c
SameText-trans max m m' m2 a b c s t = (s.0 ∙ t.0, λ j lt. s.1 j lt ∙ t.1 j (omega (arith, s.0)))

-- Two lengths of strings that agree, with the terminator, are the same.
pub IsLength-unique :
    (max a b l l' : ℕ) (m m' : Memory)
    → IsLength max a m l
    → IsLength max b m' l'
    → ((j : ℕ) → j ≤ l → j < max → m (a + j) ≡ m' (b + j))
    → l ≡ l'
IsLength-unique max a b l l' m m' i i' same = elim (dec_lt l l') [
  | yes lt ↦ elim i.stops [
    | inl e ↦ absurd (omega (arith, i'.within))
    | inr z ↦ absurd (i'.no_nul l lt (sym (same l (omega arith) (omega (arith, i'.within))) ∙ z))
  ]
  | no ge ↦ elim (dec_lt l' l) [
    | yes lt ↦ elim i'.stops [
      | inl e ↦ absurd (omega (arith, i.within))
      | inr z ↦ absurd (i.no_nul l' lt (same l' (omega arith) (omega (arith, i.within)) ∙ z))
    ]
    | no ge' ↦ omega arith
  ]
]

pub unchanged-SameText :
    (max a : ℕ) (m m' : Memory)
    → ((j : ℕ) → j ≤ kstrlen max a m → j < max → m (a + j) ≡ m' (a + j))
    → SameText max m a m' a
unchanged-SameText max a m m' same =
    let len = kstrlen-IsLength max a m in
    (
      IsLength-unique max a a _ _ m m' len (kstrlen-IsLength max a m') same,
      λ j lt. same j (omega arith) (omega (arith, len.within)),
    )

at_eq : (m m' : Memory) {x x' y y' : ℕ} → x ≡ x' → y ≡ y' → m x ≡ m' y → m x' ≡ m' y'
at_eq m m' p q e = sym (ap m p) ∙ e ∙ ap m' q

hash_loop-same :
    (n a b : ℕ) (m m' : Memory) (h : ℕ)
    → ((j : ℕ) → j < n → m (a + j) ≡ m' (b + j))
    → hash_loop n a m h ≡ hash_loop n b m' h
unfolding hash_loop
hash_loop-same zero a b m m' h same = refl
hash_loop-same (suc n) a b m m' h same =
    let first : m a ≡ m' b = at_eq m m' (omega arith) (omega arith) (same 0 (omega arith)) in
    rw first (
      hash_loop-same n (a + 1) (b + 1) m m' _
        (λ j lt. at_eq m m' (omega arith) (omega arith) (same (suc j) (omega arith))))

pub hash-SameText :
    (max a b : ℕ) (m m' : Memory)
    → SameText max m a m' b
    → kstr_hash a (kstrlen max a m) m ≡ kstr_hash b (kstrlen max b m') m'
unfolding kstr_hash
hash-SameText max a b m m' s =
    hash_loop-same (kstrlen max a m) a b m m' 0 s.1 ∙ ap (λ n. hash_loop n b m' 0) s.0

-- Whether two strings are equal depends on their texts only.
pub kstrequ-SameText :
    (max a b a' b' : ℕ) (m m' : Memory)
    → SameText max m a m' a'
    → SameText max m b m' b'
    → kstrequ max a b m ≡ kstrequ max a' b' m'
kstrequ-SameText max a b a' b' m m' s t =
    let here = kstrequ_iff max a b m in
    let there = kstrequ_iff max a' b' m' in
    elim (Bool-cases (kstrequ max a b m)) [
      | inl e ↦
          let text = here.0 e in
          let same =
            SameText-trans max m' m m' a' a b' (SameText-sym max m m' a a' s)
              (SameText-trans max m m m' a b b' text t) in
          e ∙ sym (there.1 same)
      | inr e ↦ elim (Bool-cases (kstrequ max a' b' m')) [
        | inr e' ↦ e ∙ sym e'
        | inl e' ↦
            let text = there.0 e' in
            let same =
              SameText-trans max m m' m a a' b s
                (SameText-trans max m' m' m a' b' b text (SameText-sym max m m' b b' t)) in
            here.1 same ∙ sym e'
      ]
    ]

-- The tests of equality of two strings with a third agree if the two are equal.
pub kstrequ-equal :
    (max a b c : ℕ) (m : Memory) → kstrequ max a b m ≡ true → kstrequ max a c m ≡ kstrequ max b c m
kstrequ-equal max a b c m e =
    kstrequ-SameText max a c b c m m ((kstrequ_iff max a b m).0 e) (refl, λ j lt. refl)

pub kstrequ-sym : (max a b : ℕ) (m : Memory) → kstrequ max a b m ≡ kstrequ max b a m
kstrequ-sym max a b m = elim (Bool-cases (kstrequ max a b m)) [
  | inl e ↦
      e ∙ sym ((kstrequ_iff max b a m).1 (SameText-sym max m m a b ((kstrequ_iff max a b m).0 e)))
  | inr e ↦ elim (Bool-cases (kstrequ max b a m)) [
    | inr e' ↦ e ∙ sym e'
    | inl e' ↦
        (kstrequ_iff max a b m).1 (SameText-sym max m m b a ((kstrequ_iff max b a m).0 e')) ∙ sym e'
  ]
]
