-- ===== src/Timer/Insert.antt =====
-- `timer_heap_insert` of kernel/k_timer.c keeps the heap.
use yomotsu.Base.{
  ℕ, zero, suc, ◌+◌, ◌*◌, ◌/◌, ◌≤◌, ◌<◌, ◌≡◌, ◌≢◌, ◌⊎◌, inl, inr, refl, Bool, false, none, some,
  arith, if◌then◌else◌, update, leb, ltb, Bool-cases, ℕ_discrete, ltb→lt,
}
use yomotsu.Timer.{
  Elem, TimerHeap, swap, sift_up, add_element, timer_heap_expand, timer_heap_insert,
}
use yomotsu.Timer.Order.{key, IsHeap, key-swap, tally, tally-swap, tally-new}

-- Order everywhere but above `i`, where the element may be due before its parent.
record Rising (h : ℕ → Elem) (end i : ℕ) : Type 0 where
  ordered : (j : ℕ) → 1 ≤ j → j < end → j ≢ i → key h (j / 2) ≤ key h j
  across : (j : ℕ) → 1 ≤ j → j < end → j / 2 ≡ i → key h (i / 2) ≤ key h j
  zero_first : key h 0 ≡ 0
  placed : (1 ≤ i) × (i < end)

Rising-swap :
    (h : ℕ → Elem) (end i : ℕ)
    → Rising h end i
    → key h i < key h (i / 2)
    → Rising (swap h i (i / 2)) end (i / 2)
Rising-swap h end i v lt =
    let pos : 1 ≤ i / 2 = ground arith in
    record {
      ordered = λ j lo hi ne. ground (
        arith,
        key-swap h i (i / 2) (j / 2),
        key-swap h i (i / 2) j,
        v.ordered j lo hi,
        v.across j lo hi,
      );
      across = λ j lo hi e. ground (
        arith,
        key-swap h i (i / 2) (i / 2 / 2),
        key-swap h i (i / 2) j,
        v.ordered j lo hi,
        v.ordered (i / 2),
      );
      zero_first = ground (arith, key-swap h i (i / 2) 0);
      placed = (pos, omega arith);
    }

Rising-stop : (h : ℕ → Elem) (end i : ℕ) → Rising h end i → key h (i / 2) ≤ key h i → IsHeap h end
Rising-stop h end i v le = record {
  ordered = λ j lo hi. elim (ℕ_discrete j i) [ yes e ↦ rw e le | no ne ↦ v.ordered j lo hi ne ];
  zero_first = v.zero_first;
}

sift_up-IsHeap :
    (fuel : ℕ) (h : ℕ → Elem) (end i : ℕ)
    → i ≤ fuel
    → Rising h end i
    → IsHeap (sift_up fuel h i) end
unfolding sift_up
sift_up-IsHeap zero h end i f v = absurd (omega (arith, v.placed.0))
sift_up-IsHeap (suc fuel) h end i f v = elim (Bool-cases (ltb (key h i) (key h (i / 2)))) [
  | inl e ↦
      let next = Rising-swap h end i v (ltb→lt _ _ e) in
      rw (e, sift_up)
        (sift_up-IsHeap fuel (swap h i (i / 2)) end (i / 2) (omega (arith, v.placed.0)) next)
  | inr e ↦ rw (e, sift_up) (Rising-stop h end i v (ground arith))
]

sift_up-tally :
    (p : Elem → Bool) (fuel : ℕ) (h : ℕ → Elem) (n i : ℕ)
    → i < n
    → tally p (sift_up fuel h i) n ≡ tally p h n
unfolding sift_up
sift_up-tally p zero h n i lt = refl
sift_up-tally p (suc fuel) h n i lt =
    ground (arith, sift_up-tally p fuel (swap h i (i / 2)) n (i / 2), tally-swap p h i (i / 2) n)

Rising-new :
    (h : ℕ → Elem) (end : ℕ) (e : Elem)
    → IsHeap h end
    → 1 ≤ end
    → Rising (update h end e) (end + 1) end
Rising-new h end e v pos = record {
  ordered = λ j lo hi ne. ground (arith, v.ordered j lo);
  across = λ j lo hi e. absurd (omega arith);
  zero_first = ground (arith, v.zero_first);
  placed = (pos, omega arith);
}

-- The elements of `new` are those of `old` and `e`: every property tells as many of them.
abbrev pub OneMore : Elem → TimerHeap → TimerHeap → Type 0
OneMore e old new =
    (p : Elem → Bool) → tally p new.heap new.end ≡ tally p old.heap old.end + (if p e then 1 else 0)

add_element-IsHeap :
    (e : Elem) (t : TimerHeap)
    → IsHeap t.heap t.end
    → 1 ≤ t.end
    → IsHeap (add_element e t).heap (t.end + 1) × OneMore e t (add_element e t)
unfolding add_element
add_element-IsHeap e t v pos = (
  sift_up-IsHeap t.end (update t.heap t.end e) (t.end + 1) t.end (omega arith)
      (Rising-new t.heap t.end e v pos),
  λ p.
      rw (sift_up-tally p t.end (update t.heap t.end e) (t.end + 1) t.end (omega arith))
        (tally-new p t.heap t.end e),
)

-- On a heap with its sentinel, `timer_heap_insert` gives a heap that has the elements of before and
-- the new one, in an array with room for them; it panics only if the array is full and there is no
-- memory for a larger one. The loop always ends at a parent that is not later.
pub insert-IsHeap :
    (room : Bool) (e : Elem) (t : TimerHeap)
    → IsHeap t.heap t.end
    → 1 ≤ t.end
    → t.end ≤ t.size
    → ((timer_heap_insert room e t ≡ none) × (room ≡ false) × (t.end ≡ t.size))
      ⊎ ((t' : TimerHeap) × (timer_heap_insert room e t ≡ some t')
          × IsHeap t'.heap t'.end
          × (t'.end ≡ t.end + 1)
          × (t'.end ≤ t'.size)
          × OneMore e t t')
unfolding timer_heap_insert timer_heap_expand add_element
insert-IsHeap room e t v pos fits = elim (Bool-cases (leb t.size t.end)) [
  | inr e0 ↦
      let new = add_element-IsHeap e t v pos in
      inr (add_element e t, rw e0 refl, new.0, refl, ground arith, new.1)
  | inl e0 ↦ elim (Bool-cases room) [
    | inr e1 ↦ inl (rw (e0, e1) refl, e1, ground arith)
    | inl e1 ↦
        let larger : TimerHeap = record t { size = t.size * 2 } in
        let new = add_element-IsHeap e larger v pos in
        inr (add_element e larger, rw (e0, e1) refl, new.0, refl, ground arith, new.1)
  ]
]
