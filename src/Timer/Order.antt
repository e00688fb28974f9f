-- ===== src/Timer/Order.antt =====
-- The order of the timeout heap of kernel/k_timer.c.
use yomotsu.Base.{
  ℕ, zero, suc, ◌+◌, ◌/◌, ◌≤◌, ◌<◌, ◌≡◌, refl, Bool, arith, ◌==◌, if◌then◌else◌, update, dec_lt,
  add-one,
}
use yomotsu.Timer.{Elem, TimerHeap, swap, timer_heap_top}

abbrev pub key : (ℕ → Elem) → ℕ → ℕ
key h i = (h i).deadline

-- No element is due before its parent, and the sentinel's deadline is 0.
pub record IsHeap (h : ℕ → Elem) (end : ℕ) : Type 0 where
  pub ordered : (j : ℕ) → 1 ≤ j → j < end → key h (j / 2) ≤ key h j
  pub zero_first : key h 0 ≡ 0

min_by_fuel :
    (h : ℕ → Elem) (end fuel j : ℕ) → IsHeap h end → j < fuel → 1 ≤ j → j < end → key h 1 ≤ key h j
min_by_fuel h end zero j v f lo hi = absurd (omega arith)
min_by_fuel h end (suc fuel) j v f lo hi = elim (dec_lt 1 j) [
  | yes p ↦ omega (
    arith,
    min_by_fuel h end fuel (j / 2) v (omega arith) (omega arith) (omega arith),
    v.ordered j lo hi,
  )
  | no p ↦ let one : j ≡ 1 = omega arith in rw one (omega arith)
]

-- On a heap with its sentinel, `timer_heap_top` has a deadline that no element of the heap
-- precedes.
pub top_is_min :
    (t : TimerHeap) (j : ℕ)
    → IsHeap t.heap t.end
    → 1 ≤ j
    → j < t.end
    → (timer_heap_top t).deadline ≤ key t.heap j
unfolding timer_heap_top
top_is_min t j v lo hi = min_by_fuel t.heap t.end (suc j) j v (omega arith) lo hi

pub key-swap :
    (h : ℕ → Elem) (i j k : ℕ)
    → key (swap h i j) k ≡ (if k == j then key h i else if k == i then key h j else key h k)
unfolding swap
key-swap h i j k = ground arith

-- How many of the first `n` elements have a property.
pub tally : (Elem → Bool) → (ℕ → Elem) → ℕ → ℕ
tally p h zero = 0
tally p h (suc n) = (if p (h n) then 1 else 0) + tally p h n

tally-above :
    (p : Elem → Bool) (h : ℕ → Elem) (k n : ℕ) (e : Elem)
    → n ≤ k
    → tally p (update h k e) n ≡ tally p h n
unfolding tally
tally-above p h k zero e le = refl
tally-above p h k (suc n) e le = ground (arith, tally-above p h k n e)

pub tally-new :
    (p : Elem → Bool) (h : ℕ → Elem) (n : ℕ) (e : Elem)
    → tally p (update h n e) (n + 1) ≡ tally p h n + (if p e then 1 else 0)
unfolding tally
tally-new p h n e = rw (add-one n) (ground (arith, tally-above p h n n e))

pub tally-update :
    (p : Elem → Bool) (h : ℕ → Elem) (k n : ℕ) (e : Elem)
    → k < n
    → tally p (update h k e) n + (if p (h k) then 1 else 0) ≡ tally p h n + (if p e then 1 else 0)
unfolding tally
tally-update p h k zero e lt = absurd (omega arith)
tally-update p h k (suc n) e lt = elim (dec_lt k n) [
  | yes l ↦ ground (arith, tally-update p h k n e l)
  | no g ↦ let same : n ≡ k = omega arith in ground (arith, tally-above p h k n e)
]

-- A swap of two elements keeps the tally of every property.
pub tally-swap :
    (p : Elem → Bool) (h : ℕ → Elem) (i j n : ℕ)
    → i < n
    → j < n
    → tally p (swap h i j) n ≡ tally p h n
unfolding swap
tally-swap p h i j n hi hj =
    ground (arith, tally-update p (update h i (h j)) j n (h i) hj, tally-update p h i n (h j) hi)

pub tally-add_one :
    (p : Elem → Bool) (h : ℕ → Elem) (n : ℕ)
    → tally p h n + (if p (h n) then 1 else 0) ≡ tally p h (n + 1)
unfolding tally
tally-add_one p h n = rw (add-one n) (omega arith)

-- The last element in place of the top.
pub tally-moved :
    (p : Elem → Bool) (h : ℕ → Elem) (end : ℕ)
    → 1 < end
    → tally p (update h 1 (h end)) end + (if p (h 1) then 1 else 0) ≡ tally p h (end + 1)
unfolding tally
tally-moved p h end many = rw (add-one end) (ground (arith, tally-update p h 1 end (h end) many))
