-- ===== src/Level.antt =====
-- Classes, levels and quanta of the scheduler, kernel/k_sched.c and kernel/k_sched.h.
mod Tests
pub mod Policy
use yomotsu.Base.{
  ℕ, zero, suc, ◌+◌, ◌-◌, ◌*◌, ◌%◌, Bool, true, false, Option, none, some, ltb, if◌then◌else◌,
  u64_mod, add_u64, sub_u64,
}

-- `enum SCHED_PROC_CLASS`; the field is an `int`, and `other` stands for any other value of it.
pub data SchedClass : Type 0 where
  idle normal driver rt rt_driver other : SchedClass

-- The level ranges of the four classes that have one.
abbrev pub level_min : SchedClass → ℕ
level_min SchedClass.normal = 1
level_min SchedClass.driver = 16
level_min SchedClass.rt = 32
level_min SchedClass.rt_driver = 48
level_min _ = 0

abbrev pub level_max : SchedClass → ℕ
level_max SchedClass.normal = 15
level_max SchedClass.driver = 31
level_max SchedClass.rt = 47
level_max SchedClass.rt_driver = 63
level_max _ = 0

-- `sched_process_data_t`, less the field `last_exec`, which no code reads or writes.
pub record SchedData : Type 0 where
  pub class : SchedClass
  pub cpu : ℕ
  pub priority : ℕ
  pub quantum : ℕ

-- `LINEAR_QUANTUM` with the unit quantum 20 of all four classes.
unfoldable pub linear_quantum : ℕ → ℕ → ℕ
linear_quantum p max_l = (add_u64 (sub_u64 max_l p) 1 * 20) % u64_mod

-- `none` is the PANIC of an invalid class.
unfoldable pub get_quantum : SchedData → Option ℕ
unfolding linear_quantum
get_quantum d = elim d.class [
  | SchedClass.idle ↦ some (u64_mod - 1)
  | SchedClass.normal ↦ some (linear_quantum d.priority 15)
  | SchedClass.driver ↦ some (linear_quantum d.priority 31)
  | SchedClass.rt ↦ some (linear_quantum d.priority 47)
  | SchedClass.rt_driver ↦ some (linear_quantum d.priority 63)
  | SchedClass.other ↦ none
]

pub get_priority : SchedClass → Option ℕ
get_priority SchedClass.idle = some 0
get_priority SchedClass.normal = some 15
get_priority SchedClass.driver = some 31
get_priority SchedClass.rt = some 47
get_priority SchedClass.rt_driver = some 63
get_priority SchedClass.other = none

-- The two tests of `CLAMP_CASE`.
pub clamp_level : ℕ → ℕ → ℕ → ℕ
clamp_level lo hi p = if ltb hi p then hi else if ltb p lo then lo else p

-- The `switch` of `clamped_priority_change`. The case of the idle class sets `p = 0` and has no
-- `break`, so it runs on into the case of the normal class.
clamped : SchedClass → ℕ → Option ℕ
unfolding clamp_level
clamped SchedClass.idle p = some (clamp_level 1 15 0)
clamped SchedClass.normal p = some (clamp_level 1 15 p)
clamped SchedClass.driver p = some (clamp_level 16 31 p)
clamped SchedClass.rt p = some (clamp_level 32 47 p)
clamped SchedClass.rt_driver p = some (clamp_level 48 63 p)
clamped SchedClass.other p = none

-- The delta is a signed word that is added to an unsigned one: it is given as its residue.
pub clamped_priority_change : ℕ → SchedData → Option SchedData
unfolding clamped
clamped_priority_change delta d = elim (clamped d.class (add_u64 d.priority delta)) [
  | none ↦ none
  | some p ↦ some (record d { priority = p })
]

-- The residues of the deltas 1 and -1 that the code passes.
abbrev pub plus_one : ℕ
plus_one = 1

abbrev pub minus_one : ℕ
minus_one = u64_mod - 1
