-- ===== src/Interrupts/Defer.antt =====
-- The queue of deferred calls of kernel/k_int.c is a stack.
use yomotsu.Base.{
  ℕ, zero, suc, ◌-◌, ◌*◌, ◌/◌, ◌≤◌, ◌≡◌, ◌⊎◌, inl, inr, refl, ap, Bool, false, none, some, List, [],
  ◌∷◌, arith, leb, update, Bool-cases, add-one,
}
use yomotsu.Interrupts.{
  Deferred, DeferQueue, append, defer_queue_expand, defer_queue_push, defer_queue_pop,
  defer_queue_empty,
}

-- The first `n` elements, the last one first.
abbrev pub elements : (ℕ → Deferred) → ℕ → List Deferred
elements queue zero = []
elements queue (suc n) = queue n ∷ elements queue n

-- The abstract view of the queue.
abbrev pub stack : DeferQueue → List Deferred
stack q = elements q.queue q.end

-- The elements fit into the memory, which an expansion makes larger.
abbrev pub IsSound : DeferQueue → Type 0
IsSound q = (2 ≤ q.size) × (q.end ≤ q.size)

elements-update :
    (queue : ℕ → Deferred) (k n : ℕ) (e : Deferred)
    → n ≤ k
    → elements (update queue k e) n ≡ elements queue n
elements-update queue k zero e le = refl
elements-update queue k (suc n) e le = ground (arith, elements-update queue k n e)

stack-append : (e : Deferred) (q : DeferQueue) → stack (append e q) ≡ e ∷ stack q
unfolding append
stack-append e q = rw (add-one q.end) (ground (arith, elements-update q.queue q.end q.end e))

-- `defer_queue_push` puts its element on top of the stack and keeps the queue sound; it panics only
-- if the queue is full and there is no memory for a larger one.
pub push-stack :
    (room : Bool) (e : Deferred) (q : DeferQueue)
    → IsSound q
    → ((defer_queue_push room e q ≡ none) × (room ≡ false) × (q.end ≡ q.size))
      ⊎ ((q' : DeferQueue) × (defer_queue_push room e q ≡ some q')
          × (stack q' ≡ e ∷ stack q)
          × IsSound q')
unfolding defer_queue_push defer_queue_expand append
push-stack room e q s = elim (Bool-cases (leb q.size q.end)) [
  | inr e0 ↦ inr (append e q, rw e0 refl, stack-append e q, (s.0, ground arith))
  | inl e0 ↦ elim (Bool-cases room) [
    | inr e1 ↦ inl (rw (e0, e1) refl, e1, ground arith)
    | inl e1 ↦
        let larger : DeferQueue = record q { size = q.size * 3 / 2 } in
        inr (append e larger, rw (e0, e1) refl, stack-append e larger, (omega arith, omega arith))
  ]
]

-- `defer_queue_pop` of a sound queue that is not empty takes off the top of the stack, and keeps
-- the queue sound.
pub pop-stack :
    (q : DeferQueue)
    → IsSound q
    → defer_queue_empty q ≡ false
    → (stack q ≡ (defer_queue_pop q).0 ∷ stack (defer_queue_pop q).1)
      × IsSound (defer_queue_pop q).1
unfolding defer_queue_pop defer_queue_empty
pop-stack q s ne =
    let last : q.end ≡ suc (q.end - 1) = ground arith in
    (ap (elements q.queue) last, (s.0, omega arith))
