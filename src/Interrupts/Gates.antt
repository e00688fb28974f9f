-- ===== src/Interrupts/Gates.antt =====
-- The gates that `isr_init` of kernel/k_int.c writes.
use yomotsu.Base.{
  ℕ, zero, suc, ◌+◌, ◌*◌, ◌^◌, ◌<◌, ◌≡◌, refl, ◌&&◌, arith, leb, ltb, if◌then◌else◌, update,
  u64_mod,
}
use yomotsu.Interrupts.{
  IdtGate, Machine, declare_gate, declare_gates, declare_isrs, declare_irqs, isr_init,
}

-- The address that a processor reads out of a gate.
abbrev pub target : IdtGate → ℕ
target g = g.off_low + g.off_mid * 2 ^ 16 + g.off_high * 2 ^ 32

declare_gates_lem :
    (n i : ℕ) (stub : ℕ → ℕ) (idt : ℕ → IdtGate) (v : ℕ)
    → declare_gates n i stub idt v
      ≡ (if leb i v && ltb v (i + n) then declare_gate (stub v) else idt v)
unfolding declare_gates
declare_gates_lem zero i stub idt v = ground arith
declare_gates_lem (suc n) i stub idt v =
    ground (arith, declare_gates_lem n (i + 1) stub (update idt i (declare_gate (stub i))) v)

target-declare_gate : (off : ℕ) → off < u64_mod → target (declare_gate off) ≡ off
unfolding declare_gate
target-declare_gate off h = omega arith

-- The stub of a vector.
abbrev pub stub_of : (ℕ → ℕ) → (ℕ → ℕ) → ℕ → ℕ
stub_of isr irq v = if ltb v 32 then isr v else irq v

-- A present interrupt gate of ring 0 in the kernel's code segment, on the current stack.
abbrev pub IsKernelGate : IdtGate → Type 0
IsKernelGate g = (g.p ≡ 1) × (g.type ≡ 0x0E) × (g.dpl ≡ 0) × (g.selector ≡ 8) × (g.ist ≡ 0)

declare_gate-IsKernelGate : (off : ℕ) → IsKernelGate (declare_gate off)
unfolding declare_gate
declare_gate-IsKernelGate off = (refl, refl, refl, refl, refl)

two_ranges :
    (isr irq : ℕ → ℕ) (idt : ℕ → IdtGate) (n k v : ℕ)
    → v < n + k
    → declare_gates k n irq (declare_gates n 0 isr idt) v
      ≡ declare_gate (if ltb v n then isr v else irq v)
two_ranges isr irq idt n k v h = ground (
  arith,
  declare_gates_lem n 0 isr idt v,
  declare_gates_lem k n irq (declare_gates n 0 isr idt) v,
)

isr_init-idt :
    (isr irq : ℕ → ℕ) (m : Machine) (v : ℕ)
    → v < 256
    → (isr_init isr irq m).idt v ≡ declare_gate (stub_of isr irq v)
unfolding isr_init declare_isrs declare_irqs
isr_init-idt isr irq m v h = two_ranges isr irq m.idt 32 224 v (omega arith)

-- After `isr_init`, with the stubs at addresses of 64 bits, each of the 256 vectors has a present
-- interrupt gate of ring 0 in the kernel's code segment, on the current stack, and its address is
-- that of the vector's own stub: an `_isr` stub below 32 and an `_irq` stub from 32 on.
pub isr_init_lem :
    (isr irq : ℕ → ℕ) (m : Machine) (v : ℕ)
    → v < 256
    → stub_of isr irq v < u64_mod
    → (target ((isr_init isr irq m).idt v) ≡ stub_of isr irq v)
      × IsKernelGate ((isr_init isr irq m).idt v)
isr_init_lem isr irq m v h w =
    rw (isr_init-idt isr irq m v h)
      (target-declare_gate (stub_of isr irq v) w, declare_gate-IsKernelGate (stub_of isr irq v))
