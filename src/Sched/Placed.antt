-- ===== src/Sched/Placed.antt =====
-- Where the run queues of kernel/k_sched.c hold each process.
pub mod Tick
pub mod Steps
use yomotsu.Base.{
  ℕ, ◌+◌, ◌≡◌, ◌≢◌, inl, inr, ◌⊎◌, refl, ◌∙◌, Bool, true, false, ◌&&◌, Option, none, some, List, [],
  ◌∷◌, ◌++◌, arith, ◌==◌, if◌then◌else◌, update, erase, occurs, occurs-append, occurs-cons, u64_mod,
  ◌-◌, occurs-singleton, occurs-erase, Option-cases, Bool-cases,
}
use yomotsu.Level.{
  SchedClass, SchedData, clamped_priority_change, get_priority, plus_one, minus_one, get_quantum,
}
use yomotsu.Level.Policy.{cpu-clamped_priority_change}
use yomotsu.Sched.{
  Sched, SchedQueue, Outcome, link_last, link_first, idle_data, sched_start, unlink, sched_pick_cpu,
  do_sched_set_ready, do_sched_remove_ready, do_sched_update_position, sched_enter, sched_set_ready,
  sched_set_blocking, sched_leave, sched_tick, sched_resched, with_data, quantum_over, switch_away,
  charge, sched_pick_next, sched_should_preempt,
}

-- The CPU in whose run queue a process stands: that of its `sched_data`, or, for an idle process that
-- `sched_start` linked, the one that this was called on.
abbrev pub cpu_of : Option ℕ → ℕ → ℕ
cpu_of none cpu = cpu
cpu_of (some on) cpu = on

-- A process that is linked stands once in the list of its CPU and its priority, and in no other
-- list; a process that is not linked stands in none.
pub record Placed (linked : ℕ → Bool) (started : ℕ → Option ℕ) (s : Sched) : Type 0 where
  pub place :
      (p cpu level : ℕ)
      → occurs p ((s.queue cpu).ready_list level) ≡ (
          if linked p
            && (cpu == cpu_of (started p) (s.proc p).cpu)
            && (level == (s.proc p).priority)
          then 1
          else 0)

-- The same of every process but `q`.
record PlacedBut (q : ℕ) (linked : ℕ → Bool) (started : ℕ → Option ℕ) (s : Sched) : Type 0 where
  place :
      (p cpu level : ℕ)
      → p ≢ q
      → occurs p ((s.queue cpu).ready_list level) ≡ (
          if linked p
            && (cpu == cpu_of (started p) (s.proc p).cpu)
            && (level == (s.proc p).priority)
          then 1
          else 0)

occurs-link_last :
    (queue : ℕ → SchedQueue) (cpu level p q c l : ℕ)
    → occurs q ((link_last queue cpu level p c).ready_list l)
      ≡ occurs q ((queue c).ready_list l)
        + (if (c == cpu) && (l == level) && (p == q) then 1 else 0)
unfolding link_last
occurs-link_last queue cpu level p q c l =
    ground (arith, occurs-append q ((queue cpu).ready_list level) (p ∷ []), occurs-singleton q p)

occurs-unlink :
    (queue : ℕ → SchedQueue) (p q c l : ℕ)
    → occurs q ((unlink queue p c).ready_list l)
      ≡ (if q == p then 0 else occurs q ((queue c).ready_list l))
unfolding unlink
occurs-unlink queue p q c l = occurs-erase q p ((queue c).ready_list l)

occurs-set_ready :
    (s : Sched) (p q c l : ℕ)
    → occurs q (((do_sched_set_ready p s).queue c).ready_list l)
      ≡ occurs q ((s.queue c).ready_list l)
        + (if (c == sched_pick_cpu s) && (l == (s.proc p).priority) && (p == q) then 1 else 0)
unfolding do_sched_set_ready
occurs-set_ready s p q c l =
    ground (arith, occurs-link_last s.queue (sched_pick_cpu s) (s.proc p).priority p q c l)

occurs-remove_ready :
    (s : Sched) (p q c l : ℕ)
    → occurs q (((do_sched_remove_ready p s).queue c).ready_list l)
      ≡ (if q == p then 0 else occurs q ((s.queue c).ready_list l))
unfolding do_sched_remove_ready
occurs-remove_ready s p q c l = ground (arith, occurs-unlink s.queue p q c l)

proc-set_ready :
    (s : Sched) (p q : ℕ)
    → (do_sched_set_ready p s).proc q
      ≡ (if q == p then record (s.proc p) { cpu = sched_pick_cpu s } else s.proc q)
unfolding do_sched_set_ready
proc-set_ready s p q = refl

set_ready-Placed :
    {linked : ℕ → Bool} {started : ℕ → Option ℕ} {s : Sched} (p : ℕ)
    → linked p ≡ false
    → PlacedBut p linked started s
    → ((cpu level : ℕ) → occurs p ((s.queue cpu).ready_list level) ≡ 0)
    → Placed (update linked p true) (update started p none) (do_sched_set_ready p s)
set_ready-Placed {linked} {started} {s} p off v none_of = record {
  place = λ q c l.
      ground (arith, occurs-set_ready s p q c l, proc-set_ready s p q, v.place q c l, none_of c l);
}

Placed-but :
    {linked : ℕ → Bool} {started : ℕ → Option ℕ} {s : Sched} (p : ℕ)
    → Placed linked started s
    → PlacedBut p linked started s
Placed-but p v = record { place = λ q c l ne. v.place q c l }

unlinked_everywhere :
    {linked : ℕ → Bool} {started : ℕ → Option ℕ} {s : Sched} (p : ℕ)
    → Placed linked started s
    → linked p ≡ false
    → (cpu level : ℕ) → occurs p ((s.queue cpu).ready_list level) ≡ 0
unlinked_everywhere p v off cpu level = ground (arith, v.place p cpu level)

proc-remove_ready : (s : Sched) (p q : ℕ) → (do_sched_remove_ready p s).proc q ≡ s.proc q
unfolding do_sched_remove_ready
proc-remove_ready s p q = refl

remove_ready-Placed :
    {linked : ℕ → Bool} {started : ℕ → Option ℕ} {s : Sched} (p : ℕ)
    → Placed linked started s
    → Placed (update linked p false) started (do_sched_remove_ready p s)
remove_ready-Placed {linked} {started} {s} p v = record {
  place = λ q c l.
      ground (arith, occurs-remove_ready s p q c l, proc-remove_ready s p q, v.place q c l);
}

update_position-Placed :
    {linked : ℕ → Bool} {started : ℕ → Option ℕ} {s : Sched} (cpu p : ℕ)
    → linked p ≡ true
    → cpu_of (started p) (s.proc p).cpu ≡ cpu
    → PlacedBut p linked started s
    → Placed linked started (do_sched_update_position cpu p s)
unfolding do_sched_update_position
update_position-Placed {linked} {started} {s} cpu p on here v = record {
  place = λ q c l. ground (
    arith,
    occurs-link_last (unlink s.queue p) cpu (s.proc p).priority p q c l,
    occurs-unlink s.queue p q c l,
    v.place q c l,
  );
}

-- A change of one process' data that leaves the others alone.
with_proc : ℕ → SchedData → Sched → Sched
with_proc p d s = record s { proc = update s.proc p d }

with_proc-Placed :
    {linked : ℕ → Bool} {started : ℕ → Option ℕ} {s : Sched} (p : ℕ) (d : SchedData)
    → (d.cpu ≡ (s.proc p).cpu) × (d.priority ≡ (s.proc p).priority)
    → Placed linked started s
    → Placed linked started (with_proc p d s)
unfolding with_proc
with_proc-Placed {linked} {started} {s} p d same v = record {
  place = λ q c l. ground (arith, v.place q c l);
}

with_proc-PlacedBut :
    {linked : ℕ → Bool} {started : ℕ → Option ℕ} {s : Sched} (p : ℕ) (d : SchedData)
    → Placed linked started s
    → PlacedBut p linked started (with_proc p d s)
unfolding with_proc
with_proc-PlacedBut {linked} {started} {s} p d v = record {
  place = λ q c l ne. ground (arith, v.place q c l);
}

with_proc-off :
    {linked : ℕ → Bool} {started : ℕ → Option ℕ} {s : Sched} (p : ℕ) (d : SchedData)
    → linked p ≡ false
    → Placed linked started s
    → Placed linked started (with_proc p d s)
unfolding with_proc
with_proc-off {linked} {started} {s} p d off v = record {
  place = λ q c l. ground (arith, v.place q c l);
}

enter_inv :
    (s : Sched) {t : Sched} (p : ℕ)
    → sched_enter p s ≡ some t
    → (l : ℕ) × (t ≡ do_sched_set_ready p (with_proc p (record (s.proc p) { priority = l }) s))
unfolding sched_enter with_proc
enter_inv s {t} p e = elim (Option-cases (get_priority (s.proc p).class)) [
  | inl n ↦ absurd (ground arith)
  | inr (l, n) ↦ (l, ground arith)
]

with_data_inv :
    (p : ℕ) (s : Sched) {t : Sched} (o : Option SchedData)
    → with_data p s o ≡ some t
    → (d : SchedData) × (o ≡ some d) × (t ≡ with_proc p d s)
unfolding with_data with_proc
with_data_inv p s none e = cc
with_data_inv p s (some d) e = (d, refl, cc)

enter-Placed :
    {linked : ℕ → Bool} {started : ℕ → Option ℕ} {s t : Sched} (p : ℕ)
    → linked p ≡ false
    → Placed linked started s
    → sched_enter p s ≡ some t
    → Placed (update linked p true) (update started p none) t
enter-Placed {linked} {started} {s} {t} p off v e =
    let (l, et) = enter_inv s p e in
    let w = with_proc-off p (record (s.proc p) { priority = l }) off v in
    rw et (set_ready-Placed p off (Placed-but p w) (unlinked_everywhere p w off))

set_blocking-Placed :
    {linked : ℕ → Bool} {started : ℕ → Option ℕ} {s t : Sched} (p : ℕ)
    → Placed linked started s
    → sched_set_blocking p s ≡ some t
    → Placed (update linked p false) started t
unfolding sched_set_blocking
set_blocking-Placed {linked} {started} {s} {t} p v e =
    let (d, ed, et) = with_data_inv p _ _ e in
    rw et (with_proc-off p d (ground arith) (remove_ready-Placed p v))

occurs-link_first :
    (queue : ℕ → SchedQueue) (cpu level p q c l : ℕ)
    → occurs q ((link_first queue cpu level p c).ready_list l)
      ≡ occurs q ((queue c).ready_list l)
        + (if (c == cpu) && (l == level) && (p == q) then 1 else 0)
unfolding link_first
occurs-link_first queue cpu level p q c l =
    ground (arith, occurs-cons q p ((queue cpu).ready_list level))

start_inv :
    (cpu p : ℕ) (s : Sched) {t : Sched}
    → sched_start cpu p s ≡ some t
    → (t.queue ≡ link_first s.queue cpu 0 p)
      × ((d : SchedData) × (d.priority ≡ 0) × (t.proc ≡ update s.proc p d))
unfolding sched_start idle_data get_quantum
start_inv cpu p s {t} e =
    let d = record (s.proc p) { class = SchedClass.idle; priority = 0; quantum = u64_mod - 1 } in
    (ground arith, (d, refl, ground arith))

pub start-Placed :
    {linked : ℕ → Bool} {started : ℕ → Option ℕ} {s t : Sched} (cpu p : ℕ)
    → linked p ≡ false
    → Placed linked started s
    → sched_start cpu p s ≡ some t
    → Placed (update linked p true) (update started p (some cpu)) t
start-Placed {linked} {started} {s} {t} cpu p off v e =
    let (queue, (d, zero, proc)) = start_inv cpu p s e in
    record {
      place = λ q c l.
          rw (queue, proc)
            (ground (
              arith,
              occurs-link_first s.queue cpu 0 p q c l,
              v.place q c l,
              unlinked_everywhere p v off c l,
              zero,
            ));
    }
