-- ===== src/Timer.antt =====
-- The timeout heap of kernel/k_timer.c: a binary heap in an array from index 1 on, with the
-- element at index 0 as a sentinel of deadline 0. A pointer into the array is its index.
mod Tests
pub mod Order
pub mod Insert
pub mod Extract
use yomotsu.Base.{
  ℕ, zero, suc, ◌+◌, ◌-◌, ◌*◌, ◌/◌, ◌%◌, Bool, true, false, ◌&&◌, ◌||◌, Option, none, some, List,
  [], ◌∷◌, leb, ltb, ◌==◌, if◌then◌else◌, update, add_u64,
}

-- `timer_heap_element_t`; callbacks and data are pointers.
pub record Elem : Type 0 where
  pub deadline : ℕ
  pub callback : ℕ
  pub arg : ℕ

-- `timer_heap`, `timer_heap_end` (as an index) and `timer_heap_size` of the per-CPU data.
pub record TimerHeap : Type 0 where
  pub heap : ℕ → Elem
  pub end : ℕ
  pub size : ℕ

abbrev pub heap_init_size : ℕ
heap_init_size = 32

abbrev pub sentinel : Elem
sentinel = record { deadline = 0; callback = 0; arg = 0 }

pub timer_heap_init : (ℕ → Elem) → TimerHeap
timer_heap_init memory = record { heap = update memory 0 sentinel; end = 1; size = heap_init_size }

-- `timer_heap_expand`: the elements keep their indices. `none` is the PANIC if `kmem_realloc` has
-- no memory to give.
pub timer_heap_expand : Bool → TimerHeap → Option TimerHeap
timer_heap_expand room t = if room then some (record t { size = t.size * 2 }) else none

pub timer_heap_empty : TimerHeap → Bool
timer_heap_empty t = t.end == 1

pub timer_heap_top : TimerHeap → Elem
timer_heap_top t = t.heap 1

-- The three `kmemcpy` through `tmp`.
pub swap : (ℕ → Elem) → ℕ → ℕ → ℕ → Elem
swap h i j = update (update h i (h j)) j (h i)

-- The loop of `timer_heap_insert`, with the parent of `i` at `i / 2`.
pub sift_up : ℕ → (ℕ → Elem) → ℕ → ℕ → Elem
unfolding swap
sift_up zero h i = h
sift_up (suc fuel) h i =
    let next = sift_up fuel (swap h i (i / 2)) (i / 2) in
    if ltb (h i).deadline (h (i / 2)).deadline then next else h

-- The fuel is the index of the new element: each round halves it.
add_element : Elem → TimerHeap → TimerHeap
unfolding sift_up
add_element e t = record t { heap = sift_up t.end (update t.heap t.end e) t.end; end = t.end + 1 }

pub timer_heap_insert : Bool → Elem → TimerHeap → Option TimerHeap
unfolding timer_heap_expand add_element
timer_heap_insert room e t =
    if leb t.size t.end
    then (elim (timer_heap_expand room t) [ none ↦ none | some t' ↦ some (add_element e t') ])
    else some (add_element e t)

-- What the loop of `timer_heap_extract` comes to: a heap, or a read through the null pointer. The
-- model's own case is that the fuel runs out.
pub data Sift : Type 0 where
  done : (ℕ → Elem) → Sift
  null_read : Sift
  out_of_fuel : Sift

-- `!child || ptr->deadline < child->deadline`, where a child at `end` or beyond is null.
pub is_above : (ℕ → Elem) → ℕ → ℕ → ℕ → Bool
is_above h end i child = if leb end child then true else ltb (h i).deadline (h child).deadline

-- The loop of `timer_heap_extract`. With a left child and no right one that is not left by the
-- first test, `left->deadline < right->deadline` reads through null. With no child at all it is
-- always left by the first test.
pub sift_down : ℕ → ℕ → (ℕ → Elem) → ℕ → Sift
unfolding swap is_above
sift_down zero end h i = Sift.out_of_fuel
sift_down (suc fuel) end h i =
    let left = 2 * i in
    let right = 2 * i + 1 in
    let go_left = sift_down fuel end (swap h left i) left in
    let go_right = sift_down fuel end (swap h right i) right in
    if is_above h end i left && is_above h end i right
    then Sift.done h
    else (if leb end right
        then Sift.null_read
        else (if ltb (h left).deadline (h right).deadline then go_left else go_right))

-- What `timer_heap_extract` leaves.
pub data Extracted : Type 0 where
  left : TimerHeap → Extracted
  null_read : Extracted
  out_of_fuel : Extracted

with_heap : TimerHeap → ℕ → Sift → Extracted
with_heap t end (Sift.done h) = Extracted.left (record t { heap = h; end = end })
with_heap t end Sift.null_read = Extracted.null_read
with_heap t end Sift.out_of_fuel = Extracted.out_of_fuel

-- The fuel is the number of slots: each round at least doubles the index.
pub timer_heap_extract : TimerHeap → Extracted
unfolding sift_down with_heap
timer_heap_extract t =
    let end = t.end - 1 in
    if end == 1
    then Extracted.left (record t { end = end })
    else with_heap t end (sift_down end end (update t.heap 1 (t.heap end)) 1)
