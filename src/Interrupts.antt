-- ===== src/Interrupts.antt =====
-- Interrupts, kernel/k_int.c: the interrupt descriptor table, the table of handlers of a CPU and
-- its queue of deferred calls. A handler or a callback is a pointer, 0 the null pointer. The
-- addresses of the entry stubs `_isr<n>` and `_irq<n>` are arguments.
mod Tests
pub mod Gates
pub mod Dispatch
pub mod Defer
use yomotsu.Base.{
  ℕ, zero, suc, ◌+◌, ◌-◌, ◌*◌, ◌/◌, ◌%◌, ◌^◌, Bool, true, false, ◌&&◌, Option, none, some, List, [],
  ◌∷◌, ◌++◌, leb, ltb, ◌==◌, if◌then◌else◌, update,
}

-- `idt_gate_t`
pub record IdtGate : Type 0 where
  pub off_low : ℕ
  pub selector : ℕ
  pub ist : ℕ
  pub resv1 : ℕ
  pub type : ℕ
  pub z : ℕ
  pub dpl : ℕ
  pub p : ℕ
  pub off_mid : ℕ
  pub off_high : ℕ
  pub ign : ℕ

abbrev pub idt_gates : ℕ
idt_gates = 256

abbrev pub irq_offset : ℕ
irq_offset = 32

-- The gate that `DECL_ISR` and `DECL_IRQ` write; the fields cut the address to their widths.
pub declare_gate : ℕ → IdtGate
declare_gate off = record {
  off_low = off % 2 ^ 16;
  selector = 0x08;
  ist = 0;
  resv1 = 0;
  type = 0x0E;
  z = 0;
  dpl = 0;
  p = 1;
  off_mid = off / 2 ^ 16 % 2 ^ 16;
  off_high = off / 2 ^ 32 % 2 ^ 32;
  ign = 0;
}

-- `DECL(i); DECL(i + 1); ...`, of `n` gates.
pub declare_gates : ℕ → ℕ → (ℕ → ℕ) → (ℕ → IdtGate) → ℕ → IdtGate
unfolding declare_gate
declare_gates zero i stub idt = idt
declare_gates (suc n) i stub idt =
    declare_gates n (i + 1) stub (update idt i (declare_gate (stub i)))

-- `DECL_ISR(0)` to `DECL_ISR(31)`
pub declare_isrs : (ℕ → ℕ) → (ℕ → IdtGate) → ℕ → IdtGate
unfolding declare_gates
declare_isrs isr idt = declare_gates 32 0 isr idt

-- `DECL_IRQ(32)` to `DECL_IRQ(255)`
pub declare_irqs : (ℕ → ℕ) → (ℕ → IdtGate) → ℕ → IdtGate
unfolding declare_gates
declare_irqs irq idt = declare_gates 224 32 irq idt

-- The writes to the ports of the two 8259 controllers, as port and value.
abbrev pub pic_writes : List (ℕ × ℕ)
pic_writes =
    (0x20, 0x11)
    ∷ (0xA0, 0x11)
    ∷ (0x21, 0x20)
    ∷ (0xA1, 0x28)
    ∷ (0x21, 0x04)
    ∷ (0xA1, 0x02)
    ∷ (0x21, 0x01)
    ∷ (0xA1, 0x01)
    ∷ (0xA1, 0xff)
    ∷ (0x21, 0xff)
    ∷ []

-- `idt`, and the ports written so far, in order.
pub record Machine : Type 0 where
  pub idt : ℕ → IdtGate
  pub ports : List (ℕ × ℕ)

pub isr_init : (ℕ → ℕ) → (ℕ → ℕ) → Machine → Machine
unfolding declare_isrs declare_irqs
isr_init isr irq m = record {
  idt = declare_irqs irq (declare_isrs isr m.idt);
  ports = m.ports ++ pic_writes;
}

-- `irq_handlers` of the per-CPU data.
abbrev pub IrqHandlers : Type 0
IrqHandlers = ℕ → ℕ

-- `none` is the PANIC of a vector out of range.
pub interrupt_set_handler : ℕ → ℕ → IrqHandlers → Option IrqHandlers
interrupt_set_handler vector handler t =
    if leb irq_offset vector && ltb vector idt_gates
    then some (update t (vector - irq_offset) handler)
    else none

pub interrupt_clear_handler : ℕ → IrqHandlers → Option IrqHandlers
interrupt_clear_handler vector t =
    if leb irq_offset vector && ltb vector idt_gates
    then some (update t (vector - irq_offset) 0)
    else none

-- What `irq_handler` does, in order: it calls a handler or prints that there is none, and writes
-- the end-of-interrupt register.
pub data IrqEffect : Type 0 where
  call : ℕ → ℕ → IrqEffect
  unhandled : ℕ → IrqEffect
  eoi : IrqEffect

pub irq_handler : ℕ → IrqHandlers → List IrqEffect
irq_handler irq t =
    let h = t (irq - irq_offset) in
    (if h == 0 then IrqEffect.unhandled irq else IrqEffect.call h irq) ∷ IrqEffect.eoi ∷ []

-- `irq_defer_queue_t`
pub record Deferred : Type 0 where
  pub callback : ℕ
  pub arg : ℕ

-- `defer_queue`, `defer_queue_end` (as an index) and `defer_queue_size` of the per-CPU data.
pub record DeferQueue : Type 0 where
  pub queue : ℕ → Deferred
  pub end : ℕ
  pub size : ℕ

abbrev pub defer_queue_init_size : ℕ
defer_queue_init_size = 32

-- The memory is what `kmem_alloc` returned; `none` is the PANIC if it has none to give, here and
-- below.
pub defer_queue_init : Option (ℕ → Deferred) → Option DeferQueue
defer_queue_init none = none
defer_queue_init (some memory) =
    some (record { queue = memory; end = 0; size = defer_queue_init_size })

-- The elements keep their indices.
pub defer_queue_expand : Bool → DeferQueue → Option DeferQueue
defer_queue_expand room q = if room then some (record q { size = q.size * 3 / 2 }) else none

append : Deferred → DeferQueue → DeferQueue
append e q = record q { queue = update q.queue q.end e; end = q.end + 1 }

pub defer_queue_push : Bool → Deferred → DeferQueue → Option DeferQueue
unfolding defer_queue_expand append
defer_queue_push room e q =
    if leb q.size q.end
    then (elim (defer_queue_expand room q) [ none ↦ none | some q' ↦ some (append e q') ])
    else some (append e q)

pub defer_queue_pop : DeferQueue → Deferred × DeferQueue
defer_queue_pop q = (q.queue (q.end - 1), record q { end = q.end - 1 })

pub defer_queue_empty : DeferQueue → Bool
defer_queue_empty q = q.end == 0
