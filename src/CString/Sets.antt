-- ===== src/CString/Sets.antt =====
-- What `strcspn` and `strspn` of osrt/c/string.c return.
use yomotsu.Base.{
  ltb, some, true, ℕ, ◌+◌, ◌≤◌, ◌<◌, ◌≡◌, ◌⊎◌, inl, inr, refl, ap, subst, ◌∙◌, sym, true, false,
  arith, Bool-cases, Bool, not, ℕ_discrete, dec_lt, zero-add,
}
use yomotsu.KString.{Memory}
use yomotsu.CString.{strlen, size_max, span, strcspn, strpbrk, strspn}
use yomotsu.CString.Strings.{FirstAt, strlen_lem}
use yomotsu.CString.Spans.{
  Among, ends, map_of, Spans, span-Spans, map_of-has, map_of-only, terminator,
}

-- What `strcspn` and `strspn` come to, with a `len1` and a `len2` for the lengths.
span_of : Bool → ℕ → ℕ → ℕ → ℕ → Memory → ℕ
span_of ends_at len1 len2 s1 s2 m = span ends_at (map_of len2 s2 m) (len1 + 1) s1 m 0

span_of-Spans :
    (ends_at : Bool) (len1 len2 s1 s2 : ℕ) (m : Memory)
    → Spans (ends ends_at (map_of len2 s2 m)) (len1 + 1) s1 m (span_of ends_at len1 len2 s1 s2 m)
unfolding span_of
span_of-Spans ends_at len1 len2 s1 s2 m =
    let test = ends ends_at (map_of len2 s2 m) in
    let sp = span-Spans ends_at (map_of len2 s2 m) (len1 + 1) s1 m 0 in
    subst (λ r. Spans test (len1 + 1) s1 m r) (sym (sp.1 ∙ zero-add sp.0)) sp.2

strcspn-span_of :
    (s1 s2 len1 len2 : ℕ) (m : Memory)
    → strlen s1 m ≡ len1 + 1
    → strlen s2 m ≡ len2 + 1
    → strcspn s1 s2 m ≡ span_of true len1 len2 s1 s2 m
unfolding strcspn span_of
strcspn-span_of s1 s2 len1 len2 m e1 e2 = rw (e1, e2) refl

strspn-span_of :
    (s1 s2 len1 len2 : ℕ) (m : Memory)
    → strlen s1 m ≡ len1 + 1
    → strlen s2 m ≡ len2 + 1
    → strspn s1 s2 m ≡ span_of false len1 len2 s1 s2 m
unfolding strspn span_of
strspn-span_of s1 s2 len1 len2 m e1 e2 = rw (e1, e2) refl

-- A span of chars of `s1` that are not in `s2`, as long as possible.
pub record Apart (s1 s2 len1 len2 : ℕ) (m : Memory) (r : ℕ) : Type 0 where
  pub within : r ≤ len1
  pub before : (j : ℕ) → j < r → ¬ Among len2 s2 m (m (s1 + j))
  pub stops : (r ≡ len1) ⊎ Among len2 s2 m (m (s1 + r))

Spans-Apart :
    (s1 s2 len1 len2 r : ℕ) (m : Memory)
    → FirstAt s1 0 m len1
    → FirstAt s2 0 m len2
    → Spans (ends true (map_of len2 s2 m)) (len1 + 1) s1 m r
    → Apart s1 s2 len1 len2 m r
Spans-Apart s1 s2 len1 len2 r m f1 f2 v =
    let zero_in = map_of-has len2 s2 m (m (s1 + len1)) f2 (inl f1.there) in
    let le : r ≤ len1 = elim (dec_lt len1 r) [
      | yes l ↦ absurd (let b = v.before len1 l in cc)
      | no l ↦ omega arith
    ] in
    record {
      within = le;
      before = λ j l a.
          let b = v.before j l in let h = map_of-has len2 s2 m (m (s1 + j)) f2 (inr a) in cc;
      stops = elim v.stops [
        | inl q ↦ absurd (omega arith)
        | inr q ↦ elim (map_of-only len2 s2 m (m (s1 + r)) f2 q) [
          | inl z ↦ inl (terminator s1 len1 r m f1 le z)
          | inr a ↦ inr a
        ]
      ];
    }

-- `strcspn` returns how many chars of `s1` come before the first one that is in `s2`, or before the
-- terminator.
pub strcspn_lem :
    (s1 s2 len1 len2 : ℕ) (m : Memory)
    → FirstAt s1 0 m len1
    → FirstAt s2 0 m len2
    → len1 < size_max
    → len2 < size_max
    → Apart s1 s2 len1 len2 m (strcspn s1 s2 m)
strcspn_lem s1 s2 len1 len2 m f1 f2 lt1 lt2 =
    let e =
      strcspn-span_of s1 s2 len1 len2 m (strlen_lem s1 len1 m f1 lt1)
        (strlen_lem s2 len2 m f2 lt2) in
    subst (λ r. Apart s1 s2 len1 len2 m r) (sym e)
      (Spans-Apart s1 s2 len1 len2 (span_of true len1 len2 s1 s2 m) m f1 f2
        (span_of-Spans true len1 len2 s1 s2 m))

strpbrk-strcspn :
    (s1 s2 len : ℕ) (m : Memory)
    → strlen s1 m ≡ len
    → strcspn s1 s2 m < len
    → strpbrk s1 s2 m ≡ some (s1 + strcspn s1 s2 m)
unfolding strpbrk strcspn
strpbrk-strcspn s1 s2 len m e lt =
    let less : ltb (strcspn s1 s2 m) (strlen s1 m) ≡ true = ground (arith, e) in rw less refl

-- For two terminated strings with lengths below SIZE_MAX, `strpbrk` returns the address of the first
-- char of `s1` that is in `s2`; where there is none, it returns that of the terminator, and not the
-- null pointer.
pub strpbrk_lem :
    (s1 s2 len1 len2 : ℕ) (m : Memory)
    → FirstAt s1 0 m len1
    → FirstAt s2 0 m len2
    → len1 < size_max
    → len2 < size_max
    → (r : ℕ) × (strpbrk s1 s2 m ≡ some (s1 + r)) × Apart s1 s2 len1 len2 m r
strpbrk_lem s1 s2 len1 len2 m f1 f2 lt1 lt2 =
    let a = strcspn_lem s1 s2 len1 len2 m f1 f2 lt1 lt2 in
    (
      strcspn s1 s2 m,
      strpbrk-strcspn s1 s2 (len1 + 1) m (strlen_lem s1 len1 m f1 lt1) (omega (arith, a.within)),
      a,
    )

Spans-le :
    (test : ℕ → Bool) (n s : ℕ) (m : Memory) (a b : ℕ)
    → Spans test n s m a
    → Spans test n s m b
    → b ≤ a
Spans-le test n s m a b va vb = elim (dec_lt a b) [
  | no ge ↦ omega arith
  | yes lt ↦
      absurd
        (elim va.stops [ inl q ↦ omega (arith, vb.within) | inr q ↦ let h = vb.before a lt in cc ])
]

-- The span of `strspn`, for a `k` up to which the chars of `s1` are in `s2`.
Spans-all :
    (s1 s2 len1 len2 : ℕ) (m : Memory)
    → FirstAt s1 0 m len1
    → FirstAt s2 0 m len2
    → ((j : ℕ) → j < len1 → Among len2 s2 m (m (s1 + j)))
    → Spans (ends false (map_of len2 s2 m)) (len1 + 1) s1 m (len1 + 1)
Spans-all s1 s2 len1 len2 m f1 f2 front = record {
  within = omega arith;
  before = λ j lt. elim (ℕ_discrete j len1) [
    | yes q ↦
        ap not (map_of-has len2 s2 m (m (s1 + j)) f2 (inl (ap (λ x. m (s1 + x)) q ∙ f1.there)))
    | no q ↦ ap not (map_of-has len2 s2 m (m (s1 + j)) f2 (inr (front j (omega arith))))
  ];
  stops = inl refl;
}

Spans-some :
    (s1 s2 len1 len2 k : ℕ) (m : Memory)
    → FirstAt s1 0 m len1
    → FirstAt s2 0 m len2
    → k < len1
    → ((j : ℕ) → j < k → Among len2 s2 m (m (s1 + j)))
    → ¬ Among len2 s2 m (m (s1 + k))
    → Spans (ends false (map_of len2 s2 m)) (len1 + 1) s1 m k
Spans-some s1 s2 len1 len2 k m f1 f2 lt front stop = record {
  within = omega arith;
  before = λ j l. ap not (map_of-has len2 s2 m (m (s1 + j)) f2 (inr (front j l)));
  stops = inr (elim (Bool-cases (map_of len2 s2 m (m (s1 + k)))) [
    | inr e ↦ ap not e
    | inl e ↦ absurd (elim (map_of-only len2 s2 m (m (s1 + k)) f2 e) [
      | inl z ↦ f1.before k lt z
      | inr a ↦ stop a
    ])
  ]);
}

strspn-Spans :
    (s1 s2 len1 len2 k : ℕ) (m : Memory)
    → FirstAt s1 0 m len1
    → FirstAt s2 0 m len2
    → len1 < size_max
    → len2 < size_max
    → Spans (ends false (map_of len2 s2 m)) (len1 + 1) s1 m k
    → strspn s1 s2 m ≡ k
strspn-Spans s1 s2 len1 len2 k m f1 f2 lt1 lt2 v =
    let test = ends false (map_of len2 s2 m) in
    let r = span_of false len1 len2 s1 s2 m in
    let w = span_of-Spans false len1 len2 s1 s2 m in
    let up = Spans-le test (len1 + 1) s1 m r k w v in
    let down = Spans-le test (len1 + 1) s1 m k r v w in
    let same : r ≡ k = omega arith in
    strspn-span_of s1 s2 len1 len2 m (strlen_lem s1 len1 m f1 lt1) (strlen_lem s2 len2 m f2 lt2)
    ∙ same

-- `strspn`, where the first `k` chars of `s1` are in `s2` and the next one is not, returns `k`.
pub strspn_lem :
    (s1 s2 len1 len2 k : ℕ) (m : Memory)
    → FirstAt s1 0 m len1
    → FirstAt s2 0 m len2
    → len1 < size_max
    → len2 < size_max
    → k < len1
    → ((j : ℕ) → j < k → Among len2 s2 m (m (s1 + j)))
    → ¬ Among len2 s2 m (m (s1 + k))
    → strspn s1 s2 m ≡ k
strspn_lem s1 s2 len1 len2 k m f1 f2 lt1 lt2 lt front stop =
    strspn-Spans s1 s2 len1 len2 k m f1 f2 lt1 lt2
      (Spans-some s1 s2 len1 len2 k m f1 f2 lt front stop)

-- Where all the chars of `s1` are in `s2`, `strspn` counts the terminator too.
pub strspn-all :
    (s1 s2 len1 len2 : ℕ) (m : Memory)
    → FirstAt s1 0 m len1
    → FirstAt s2 0 m len2
    → len1 < size_max
    → len2 < size_max
    → ((j : ℕ) → j < len1 → Among len2 s2 m (m (s1 + j)))
    → strspn s1 s2 m ≡ len1 + 1
strspn-all s1 s2 len1 len2 m f1 f2 lt1 lt2 front =
    strspn-Spans s1 s2 len1 len2 (len1 + 1) m f1 f2 lt1 lt2
      (Spans-all s1 s2 len1 len2 m f1 f2 front)
