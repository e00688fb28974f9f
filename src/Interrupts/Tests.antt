-- ===== src/Interrupts/Tests.antt =====
-- The interrupts of kernel/k_int.c at concrete states.
use yomotsu.Base.{ℕ, ◌+◌, ◌*◌, ◌≡◌, ◌⊎◌, refl, true, false, none, some, [], ◌∷◌, arith}
use yomotsu.Interrupts.{
  Machine, IrqHandlers, Deferred, DeferQueue, declare_gate, defer_queue_push, defer_queue_empty,
}
use yomotsu.Interrupts.Defer.{stack, IsSound, push-stack}

abbrev entry : ℕ → ℕ
entry v = 0xffffffff80200000 + 16 * v

abbrev blank : Machine
blank = record { idt = λ v. declare_gate 0; ports = [] }

abbrev no_handlers : IrqHandlers
no_handlers v = 0

abbrev deferred : Deferred
deferred = record { callback = 5; arg = 9 }

abbrev full_queue : DeferQueue
full_queue = record { queue = λ i. deferred; end = 32; size = 32 }

push-stack_example :
    ((defer_queue_push true deferred full_queue ≡ none)
      × (true ≡ false)
      × (full_queue.end ≡ full_queue.size))
    ⊎ ((q' : DeferQueue) × (defer_queue_push true deferred full_queue ≡ some q')
        × (stack q' ≡ deferred ∷ stack full_queue)
        × IsSound q')
push-stack_example = push-stack true deferred full_queue (omega arith, omega arith)

not_empty : defer_queue_empty full_queue ≡ false
unfolding defer_queue_empty
not_empty = refl
