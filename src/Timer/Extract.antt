-- ===== src/Timer/Extract.antt =====
-- `timer_heap_extract` of kernel/k_timer.c takes out the top.
use yomotsu.Base.{
  false, ℕ, zero, suc, ◌+◌, ◌-◌, ◌*◌, ◌/◌, ◌%◌, ◌≤◌, ◌<◌, ◌≡◌, ◌≢◌, ◌⊎◌, inl, inr, refl, ap, subst,
  Bool, ◌&&◌, arith, ◌==◌, if◌then◌else◌, update, leb, ltb, Bool-cases, ℕ_discrete, ◌∙◌, sym,
}
use yomotsu.Timer.{
  Elem, TimerHeap, Sift, Extracted, swap, is_above, sift_down, with_heap, timer_heap_top,
  timer_heap_extract,
}
use yomotsu.Timer.Order.{
  key, IsHeap, key-swap, tally, tally-swap, top_is_min, tally-moved, tally-add_one,
}

-- Order everywhere but below `i`, which may be due after its children.
record Sinking (h : ℕ → Elem) (end i : ℕ) : Type 0 where
  ordered : (j : ℕ) → 1 ≤ j → j < end → j / 2 ≢ i → key h (j / 2) ≤ key h j
  across : (j : ℕ) → 1 ≤ j → j < end → j / 2 ≡ i → key h (i / 2) ≤ key h j
  zero_first : key h 0 ≡ 0
  placed : (1 ≤ i) × (i < end)

-- A child that is not later than its sibling takes the place of `i`.
Sinking-swap :
    (h : ℕ → Elem) (end i c : ℕ)
    → Sinking h end i
    → c / 2 ≡ i
    → c < end
    → key h c ≤ key h i
    → ((j : ℕ) → j < end → j / 2 ≡ i → key h c ≤ key h j)
    → Sinking (swap h c i) end c
Sinking-swap h end i c v child inside le least =
    let pos : 1 ≤ i = v.placed.0 in
    record {
      ordered = λ j lo hi ne. ground (
        arith,
        key-swap h c i (j / 2),
        key-swap h c i j,
        v.ordered j lo hi,
        v.across j lo hi,
        v.across c,
        least j hi,
      );
      across =
          λ j lo hi e. ground (arith, key-swap h c i (c / 2), key-swap h c i j, v.ordered j lo hi);
      zero_first = ground (arith, key-swap h c i 0, v.zero_first);
      placed = (omega arith, inside);
    }

siblings : (i j : ℕ) → j / 2 ≡ i → (j ≡ 2 * i) ⊎ (j ≡ 2 * i + 1)
siblings i j e = elim (ℕ_discrete j (2 * i)) [ yes p ↦ inl p | no p ↦ inr (omega arith) ]

Sinking-stop :
    (h : ℕ → Elem) (end i : ℕ)
    → Sinking h end i
    → (2 * i < end → key h i ≤ key h (2 * i))
    → (2 * i + 1 < end → key h i ≤ key h (2 * i + 1))
    → IsHeap h end
Sinking-stop h end i v l r = record {
  ordered = λ j lo hi. elim (ℕ_discrete (j / 2) i) [
    | no ne ↦ v.ordered j lo hi ne
    | yes e ↦ elim (ℕ_discrete j (2 * i)) [
      | yes p ↦ rw (e, p) (l (omega arith))
      | no p ↦ let odd : j ≡ 2 * i + 1 = omega arith in rw (e, odd) (r (omega arith))
    ]
  ];
  zero_first = v.zero_first;
}

-- The remaining count is even when the read through null happens.
abbrev Sifted : ℕ → (ℕ → Elem) → Sift → Type 0
Sifted end h s =
    ((s ≡ Sift.null_read) × (end % 2 ≡ 1))
    ⊎ ((h' : ℕ → Elem) × (s ≡ Sift.done h')
        × IsHeap h' end
        × ((p : Elem → Bool) → tally p h' end ≡ tally p h end))

Sifted-swap :
    (end : ℕ) (h : ℕ → Elem) (i j : ℕ) (s : Sift)
    → i < end
    → j < end
    → Sifted end (swap h i j) s
    → Sifted end h s
Sifted-swap end h i j s hi hj (inl n) = inl n
Sifted-swap end h i j s hi hj (inr (h', e, v, same)) =
    inr (h', e, v, λ p. same p ∙ tally-swap p h i j end hi hj)

sift_down-Sifted :
    (fuel end : ℕ) (h : ℕ → Elem) (i : ℕ)
    → end < fuel + i
    → Sinking h end i
    → Sifted end h (sift_down fuel end h i)
unfolding sift_down is_above
sift_down-Sifted zero end h i f v = absurd (omega (arith, v.placed.1))
sift_down-Sifted (suc fuel) end h i f v =
    elim (Bool-cases (is_above h end i (2 * i) && is_above h end i (2 * i + 1))) [
      | inl e ↦ inr (
        h,
        rw e refl,
        Sinking-stop h end i v (λ lt. ground arith) (λ lt. ground arith),
        λ p. refl,
      )
      | inr e ↦ elim (Bool-cases (leb end (2 * i + 1))) [
        | inl e1 ↦ inl (rw (e, e1) refl, ground arith)
        | inr e1 ↦ elim (Bool-cases (ltb (key h (2 * i)) (key h (2 * i + 1)))) [
          | inl e2 ↦
              let inside : (2 * i < end) × (i < end) = (ground arith, v.placed.1) in
              rw (e, e1, e2)
                (Sifted-swap end h (2 * i) i _ inside.0 inside.1 (
                  sift_down-Sifted fuel end (swap h (2 * i) i) (2 * i) (omega (arith, v.placed.0)) (
                    Sinking-swap h end i (2 * i) v (omega arith) inside.0 (ground arith) (λ j hi e'.
                      elim (siblings i j e') [
                        | inl q ↦ rw q (ground arith)
                        | inr q ↦ rw q (ground arith)
                      ]))))
          | inr e2 ↦
              let inside : (2 * i + 1 < end) × (i < end) = (ground arith, v.placed.1) in
              rw (e, e1, e2)
                (Sifted-swap end h (2 * i + 1) i _ inside.0 inside.1 (
                  sift_down-Sifted fuel end (swap h (2 * i + 1) i) (2 * i + 1)
                    (omega (arith, v.placed.0))
                    (Sinking-swap h end i (2 * i + 1) v (omega arith) inside.0 (ground arith)
                      (λ j hi e'. elim (siblings i j e') [
                        | inl q ↦ rw q (ground arith)
                        | inr q ↦ rw q (ground arith)
                      ]))))
        ]
      ]
    ]

Sinking-start :
    (h : ℕ → Elem) (end : ℕ) (e : Elem)
    → IsHeap h (end + 1)
    → 1 < end
    → Sinking (update h 1 e) end 1
Sinking-start h end e v many = record {
  ordered = λ j lo hi ne. ground (arith, v.ordered j lo, v.zero_first);
  across = λ j lo hi e. ground (arith, v.zero_first);
  zero_first = ground (arith, v.zero_first);
  placed = (omega arith, many);
}

-- From a heap with its sentinel and at least one element, `timer_heap_extract` takes out the top,
-- which no element precedes, and leaves a heap with all the other elements, or it reads
-- `right->deadline` through a null pointer. It does so only if an even number of elements is left.
-- The loop always ends.
pub extract-IsHeap :
    (t : TimerHeap)
    → IsHeap t.heap t.end
    → 2 ≤ t.end
    → ((timer_heap_extract t ≡ Extracted.null_read) × ((t.end - 2) % 2 ≡ 0))
      ⊎ ((t' : TimerHeap) × (timer_heap_extract t ≡ Extracted.left t')
          × IsHeap t'.heap t'.end
          × (t'.end + 1 ≡ t.end)
          × ((j : ℕ) → 1 ≤ j → j < t.end → (timer_heap_top t).deadline ≤ key t.heap j)
          × ((p : Elem → Bool)
              → tally p t'.heap t'.end + (if p (timer_heap_top t) then 1 else 0)
                ≡ tally p t.heap t.end))
unfolding timer_heap_extract timer_heap_top with_heap
extract-IsHeap t v some_left = elim (Bool-cases (t.end - 1 == 1)) [
  | inl e ↦
      let two : t.end ≡ 2 = ground arith in
      inr (
        record t { end = t.end - 1 },
        rw e refl,
        record { ordered = λ j lo hi. v.ordered j lo (omega arith); zero_first = v.zero_first },
        omega arith,
        (λ j lo hi. top_is_min t j v lo hi),
        λ p. rw two (tally-add_one p t.heap 1),
      )
  | inr e ↦
      let last : t.end ≡ t.end - 1 + 1 = omega arith in
      let many : 1 < t.end - 1 = ground arith in
      let start =
        Sinking-start t.heap (t.end - 1) (t.heap (t.end - 1)) (subst (IsHeap t.heap) last v) many in
      elim (sift_down-Sifted (t.end - 1) (t.end - 1) _ 1 (omega arith) start) [
        | inl (null, odd) ↦ inl (rw (e, null) refl, omega arith)
        | inr (h', leaves, v', same) ↦ inr (
          record t { heap = h'; end = t.end - 1 },
          rw (e, leaves) refl,
          v',
          omega arith,
          (λ j lo hi. top_is_min t j v lo hi),
          λ p. rw (same p) (tally-moved p t.heap (t.end - 1) many ∙ ap (tally p t.heap) (sym last)),
        )
      ]
]

-- With three elements, of which the third is not due before the second, `timer_heap_extract` reads
-- `right->deadline` through a null pointer: the third goes to the top, and its only child is the
-- second.
pub extract_reads_null :
    (t : TimerHeap)
    → t.end ≡ 4
    → key t.heap 2 ≤ key t.heap 3
    → timer_heap_extract t ≡ Extracted.null_read
unfolding timer_heap_extract sift_down is_above with_heap
extract_reads_null t three late =
    let not_before : ltb (key t.heap 3) (key t.heap 2) ≡ false = ground arith in
    rw (three, not_before) refl
