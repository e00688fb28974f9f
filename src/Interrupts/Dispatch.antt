-- ===== src/Interrupts/Dispatch.antt =====
-- The table of handlers of kernel/k_int.c.
use yomotsu.Base.{ℕ, ◌-◌, ◌≤◌, ◌<◌, ◌≡◌, ◌≢◌, some, [], ◌∷◌, arith, update}
use yomotsu.Interrupts.{IrqHandlers, IrqEffect, interrupt_set_handler, irq_handler}

-- For a vector from 32 to 255 and a handler that is not null, `interrupt_set_handler` succeeds; an
-- interrupt of the vector then calls the handler with the vector, once, and ends the interrupt, and
-- an interrupt of any other vector from 32 on does what it did before.
pub set_handler_then_irq :
    (v h : ℕ) (t : IrqHandlers)
    → 32 ≤ v
    → v < 256
    → h ≢ 0
    → (t' : IrqHandlers) × (interrupt_set_handler v h t ≡ some t')
      × (irq_handler v t' ≡ IrqEffect.call h v ∷ IrqEffect.eoi ∷ [])
      × ((u : ℕ) → 32 ≤ u → u ≢ v → irq_handler u t' ≡ irq_handler u t)
unfolding interrupt_set_handler irq_handler
set_handler_then_irq v h t lo hi ne =
    (update t (v - 32) h, ground arith, ground arith, λ u l n. ground arith)
