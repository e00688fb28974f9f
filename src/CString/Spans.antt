-- ===== src/CString/Spans.antt =====
-- The map and the loop that `strcspn` and `strspn` of osrt/c/string.c share.
use yomotsu.Base.{
  ℕ, zero, suc, ◌+◌, ◌-◌, ◌≤◌, ◌<◌, ◌≡◌, ◌⊎◌, inl, inr, refl, ap, subst, ◌∙◌, sym, true, false,
  arith, if◌then◌else◌, update, Bool-cases, Bool, not, ℕ_discrete,
}
use yomotsu.KString.{Memory}
use yomotsu.CString.{char_map, span}
use yomotsu.CString.Strings.{FirstAt}

-- `c` is one of the `n` bytes at `s`.
abbrev pub Among : ℕ → ℕ → Memory → ℕ → Type 0
Among n s m c = (k : ℕ) × (k < n) × (m (s + k) ≡ c)

Among-next : (n s c : ℕ) (m : Memory) → Among n (s + 1) m c → Among (suc n) s m c
Among-next n s c m a = (a.0 + 1, omega (arith, a.1), ground (arith, a.2))

char_map-keeps :
    (n s : ℕ) (m : Memory) (map : ℕ → Bool) (c : ℕ) → map c ≡ true → char_map n s m map c ≡ true
unfolding char_map
char_map-keeps zero s m map c e = e
char_map-keeps (suc n) s m map c e =
    char_map-keeps n (s + 1) m (update map (m s) true) c (ground arith)

char_map-has :
    (n s : ℕ) (m : Memory) (map : ℕ → Bool) (c : ℕ) → Among n s m c → char_map n s m map c ≡ true
unfolding char_map
char_map-has zero s m map c a = absurd (omega (arith, a.1))
char_map-has (suc n) s m map c (zero, lt, e) =
    char_map-keeps n (s + 1) m (update map (m s) true) c (ground arith)
char_map-has (suc n) s m map c (suc k, lt, e) =
    char_map-has n (s + 1) m (update map (m s) true) c (k, omega arith, ground arith)

char_map-only :
    (n s : ℕ) (m : Memory) (map : ℕ → Bool) (c : ℕ)
    → char_map n s m map c ≡ true
    → (map c ≡ true) ⊎ Among n s m c
unfolding char_map
char_map-only zero s m map c e = inl e
char_map-only (suc n) s m map c e = elim (char_map-only n (s + 1) m (update map (m s) true) c e) [
  | inr a ↦ inr (Among-next n s c m a)
  | inl h ↦ elim (ℕ_discrete c (m s)) [
    | yes q ↦ inr (0, omega arith, ground arith)
    | no q ↦ inl (ground arith)
  ]
]

-- Whether `span` ends at a char.
abbrev pub ends : Bool → (ℕ → Bool) → ℕ → Bool
ends ends_at map c = if ends_at then map c else not (map c)

-- A span of `len` of the `n` chars at `s`.
pub record Spans (test : ℕ → Bool) (n s : ℕ) (m : Memory) (len : ℕ) : Type 0 where
  pub within : len ≤ n
  pub before : (j : ℕ) → j < len → test (m (s + j)) ≡ false
  pub stops : (len ≡ n) ⊎ (test (m (s + len)) ≡ true)

Spans-more :
    (test : ℕ → Bool) (n s : ℕ) (m : Memory) (len : ℕ)
    → test (m s) ≡ false
    → Spans test n (s + 1) m len
    → Spans test (suc n) s m (suc len)
Spans-more test n s m len e v = record {
  within = omega (arith, v.within);
  before = λ j lt. elim (ℕ_discrete j 0) [
    | yes q ↦ ground arith
    | no q ↦
        (let shift : s + 1 + (j - 1) ≡ s + j = omega arith in
          subst (λ x. test (m x) ≡ false) shift (v.before (j - 1) (omega arith)))
  ];
  stops = elim v.stops [ inl q ↦ inl (omega arith) | inr q ↦ inr (ground (arith, q)) ];
}

pub span-Spans :
    (ends_at : Bool) (map : ℕ → Bool) (n s : ℕ) (m : Memory) (ret : ℕ)
    → (len : ℕ) × (span ends_at map n s m ret ≡ ret + len) × Spans (ends ends_at map) n s m len
unfolding span
span-Spans ends_at map zero s m ret = (
  0,
  omega arith,
  record { within = omega arith; before = λ j lt. absurd (omega arith); stops = inl refl },
)
span-Spans ends_at map (suc n) s m ret = elim (Bool-cases (ends ends_at map (m s))) [
  | inl e ↦ (
    0,
    ground arith,
    record {
      within = omega arith;
      before = λ j lt. absurd (omega arith);
      stops = inr (ground arith);
    },
  )
  | inr e ↦
      let rest = span-Spans ends_at map n (s + 1) m (ret + 1) in
      (suc rest.0, ground (arith, rest.1), Spans-more (ends ends_at map) n s m rest.0 e rest.2)
]

-- The map of `strcspn` and `strspn` has the chars of `s2` and the terminator.
abbrev pub map_of : ℕ → ℕ → Memory → ℕ → Bool
map_of len s2 m = char_map (len + 1) s2 m (λ c. false)

pub map_of-has :
    (len s2 : ℕ) (m : Memory) (c : ℕ)
    → FirstAt s2 0 m len
    → (c ≡ 0) ⊎ Among len s2 m c
    → map_of len s2 m c ≡ true
map_of-has len s2 m c f h =
    char_map-has (len + 1) s2 m (λ c'. false) c
      (elim h [
        | inl z ↦ (len, omega arith, f.there ∙ sym z)
        | inr a ↦ (a.0, omega (arith, a.1), a.2)
      ])

pub map_of-only :
    (len s2 : ℕ) (m : Memory) (c : ℕ)
    → FirstAt s2 0 m len
    → map_of len s2 m c ≡ true
    → (c ≡ 0) ⊎ Among len s2 m c
map_of-only len s2 m c f e = elim (char_map-only (len + 1) s2 m (λ c'. false) c e) [
  | inl h ↦ absurd (cc)
  | inr a ↦ elim (ℕ_discrete a.0 len) [
    | yes q ↦ inl (sym a.2 ∙ ap (λ k. m (s2 + k)) q ∙ f.there)
    | no q ↦ inr (a.0, omega (arith, a.1, q), a.2)
  ]
]

pub terminator : (s len r : ℕ) (m : Memory) → FirstAt s 0 m len → r ≤ len → m (s + r) ≡ 0 → r ≡ len
terminator s len r m f le z = elim (ℕ_discrete r len) [
  | yes q ↦ q
  | no q ↦ absurd (f.before r (omega arith) z)
]
