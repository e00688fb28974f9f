-- ===== src/Level/Policy.antt =====
-- Levels and quanta of kernel/k_sched.c.
use yomotsu.Base.{
  Option-cases, inl, inr, ℕ, ◌+◌, ◌-◌, ◌*◌, ◌≤◌, ◌≡◌, refl, ap, if◌then◌else◌, some, arith, add_u64,
  ltb,
}
use yomotsu.Level.{
  SchedClass, SchedData, level_min, level_max, get_quantum, linear_quantum, clamp_level, clamped,
  clamped_priority_change, plus_one, minus_one,
}

-- The four classes that have a range of levels.
pub data HasRange : SchedClass → Type 0 where
  normal : HasRange SchedClass.normal
  driver : HasRange SchedClass.driver
  rt : HasRange SchedClass.rt
  rt_driver : HasRange SchedClass.rt_driver

abbrev pub InRange : SchedClass → ℕ → Type 0
InRange c p = (level_min c ≤ p) × (p ≤ level_max c)

abbrev pub one_up : SchedClass → ℕ → ℕ
one_up c p = if ltb p (level_max c) then p + 1 else level_max c

abbrev pub one_down : SchedClass → ℕ → ℕ
one_down c p = if ltb (level_min c) p then p - 1 else level_min c

clamped-one_up :
    {c : SchedClass} (p : ℕ)
    → HasRange c
    → InRange c p
    → clamped c (add_u64 p plus_one) ≡ some (one_up c p)
unfolding clamped clamp_level
clamped-one_up p normal h = ground arith
clamped-one_up p driver h = ground arith
clamped-one_up p rt h = ground arith
clamped-one_up p rt_driver h = ground arith

clamped-one_down :
    {c : SchedClass} (p : ℕ)
    → HasRange c
    → InRange c p
    → clamped c (add_u64 p minus_one) ≡ some (one_down c p)
unfolding clamped clamp_level
clamped-one_down p normal h = ground arith
clamped-one_down p driver h = ground arith
clamped-one_down p rt h = ground arith
clamped-one_down p rt_driver h = ground arith

-- Of a process of the normal, driver, real-time or real-time driver class whose priority lies in
-- the range of its class, a change by 1 and a change by -1 move the priority one level up and one
-- level down, but not out of the range, and change no other field.
pub priority_change_saturates :
    (d : SchedData)
    → HasRange d.class
    → InRange d.class d.priority
    → (clamped_priority_change plus_one d
        ≡ some (record d { priority = one_up d.class d.priority }))
      × (clamped_priority_change minus_one d
          ≡ some (record d { priority = one_down d.class d.priority }))
unfolding clamped_priority_change
priority_change_saturates d c h = (
  rw (clamped-one_up d.priority c h, clamped_priority_change) refl,
  rw (clamped-one_down d.priority c h, clamped_priority_change) refl,
)

clamped_range :
    {c : SchedClass} (p : ℕ)
    → HasRange c
    → (q : ℕ) × (clamped c p ≡ some q) × (level_min c ≤ q) × (q ≤ level_max c)
unfolding clamped clamp_level
clamped_range p normal = (clamp_level 1 15 p, refl, ground arith, ground arith)
clamped_range p driver = (clamp_level 16 31 p, refl, ground arith, ground arith)
clamped_range p rt = (clamp_level 32 47 p, refl, ground arith, ground arith)
clamped_range p rt_driver = (clamp_level 48 63 p, refl, ground arith, ground arith)

linear_quantum_lem :
    {c : SchedClass} (p : ℕ)
    → HasRange c
    → InRange c p
    → linear_quantum p (level_max c) ≡ 20 * (level_max c - p + 1)
unfolding linear_quantum
linear_quantum_lem p normal h = omega arith
linear_quantum_lem p driver h = omega arith
linear_quantum_lem p rt h = omega arith
linear_quantum_lem p rt_driver h = omega arith

quantum_by_class :
    {c : SchedClass} (d : SchedData)
    → HasRange c
    → d.class ≡ c
    → get_quantum d ≡ some (linear_quantum d.priority (level_max c))
unfolding get_quantum
quantum_by_class d normal e = rw e refl
quantum_by_class d driver e = rw e refl
quantum_by_class d rt e = rw e refl
quantum_by_class d rt_driver e = rw e refl

-- In the range of its class, a process gets 20 units for each level from its own to the highest of
-- the class. So the quantum is a positive multiple of the 10 that a tick takes, of at most 320, and
-- the ticks bring it to exactly 0.
pub quantum_in_ticks :
    (d : SchedData)
    → HasRange d.class
    → InRange d.class d.priority
    → (ticks : ℕ) × (get_quantum d ≡ some (ticks * 10))
      × (ticks ≡ 2 * (level_max d.class - d.priority + 1))
      × (2 ≤ ticks)
quantum_in_ticks d c h = (
  2 * (level_max d.class - d.priority + 1),
  rw (quantum_by_class d c refl) (ap some (omega (arith, linear_quantum_lem d.priority c h))),
  refl,
  omega arith,
)

clamped-some : {c : SchedClass} (p : ℕ) → HasRange c → (q : ℕ) × (clamped c p ≡ some q)
clamped-some p h = ((clamped_range p h).0, (clamped_range p h).1)

-- A change of priority does not panic for a class with a range.
pub priority_change_succeeds :
    (delta : ℕ) (d : SchedData)
    → HasRange d.class
    → (d' : SchedData) × (clamped_priority_change delta d ≡ some d')
unfolding clamped_priority_change
priority_change_succeeds delta d h =
    let (q, e) = clamped-some (add_u64 d.priority delta) h in
    elim (Option-cases (clamped_priority_change delta d)) [
      | inl n ↦ absurd (ground arith)
      | inr r ↦ r
    ]

pub cpu-clamped_priority_change :
    (delta : ℕ) (d : SchedData) {d' : SchedData}
    → clamped_priority_change delta d ≡ some d'
    → d'.cpu ≡ d.cpu
unfolding clamped_priority_change
cpu-clamped_priority_change delta d e = ground arith
