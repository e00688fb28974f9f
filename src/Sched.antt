-- ===== src/Sched.antt =====
-- The scheduler, kernel/k_sched.c and kernel/k_sched.h: a run queue of 64 levels for each CPU.
-- A process is named by a number; `list_node_t` queues are lists of such names, oldest first. The
-- spinlock of a run queue is held throughout each function below, so each is one atomic step.
mod Tests
pub mod Blocking
pub mod Pick
pub mod Placed
use yomotsu.Base.{
  ℕ, zero, suc, ◌+◌, ◌-◌, ◌*◌, ◌%◌, Bool, true, false, Option, none, some, List, [], ◌∷◌, ◌++◌, ltb,
  ◌==◌, if◌then◌else◌, update, erase, u64_mod, add_u64, sub_u64,
}
use yomotsu.Level.{
  SchedClass, SchedData, get_quantum, get_priority, clamped_priority_change, plus_one, minus_one,
}

abbrev pub total_levels : ℕ
total_levels = 64

-- `sched_queue_t`, less its lock.
pub record SchedQueue : Type 0 where
  pub process_count : ℕ
  pub ready_list : ℕ → List ℕ

-- The global `queue`, each process' `sched_data`, and of the per-CPU data `current_process` and
-- `sched_enabled`.
pub record Sched : Type 0 where
  pub cpu_count : ℕ
  pub queue : ℕ → SchedQueue
  pub proc : ℕ → SchedData
  pub current : ℕ → ℕ
  pub enabled : ℕ → Bool

pick_cpu_loop : (ℕ → SchedQueue) → ℕ → ℕ → ℕ → ℕ → ℕ
pick_cpu_loop queue zero i ret ret_count = ret
pick_cpu_loop queue (suc n) i ret ret_count =
    let i_count = (queue i).process_count in
    pick_cpu_loop queue n (i + 1) (if ltb i_count ret_count then i else ret)
      (if ltb i_count ret_count then i_count else ret_count)

pub sched_pick_cpu : Sched → ℕ
unfolding pick_cpu_loop
sched_pick_cpu s = pick_cpu_loop s.queue s.cpu_count 0 0 (u64_mod - 1)

-- `sched_init`: every list empty, every count 0.
pub sched_init : Sched → Sched
sched_init s = record s { queue = λ _. record { process_count = 0; ready_list = λ _. [] } }

-- `list_insert(node, ready_list[level].prev)` on the run queue of `cpu`: at the tail.
pub link_last : (ℕ → SchedQueue) → ℕ → ℕ → ℕ → ℕ → SchedQueue
link_last queue cpu level p = update queue cpu (record (queue cpu) {
  ready_list = update (queue cpu).ready_list level ((queue cpu).ready_list level ++ (p ∷ []));
})

-- `list_remove(node)`: the node leaves whichever list it is linked in.
pub unlink : (ℕ → SchedQueue) → ℕ → ℕ → SchedQueue
unlink queue p cpu = record (queue cpu) {
  ready_list = λ level. erase p ((queue cpu).ready_list level);
}

pub do_sched_set_ready : ℕ → Sched → Sched
do_sched_set_ready p s =
    let cpu = sched_pick_cpu s in
    let queue = link_last s.queue cpu (s.proc p).priority p in
    record s {
      queue =
          update queue cpu
            (record (queue cpu) { process_count = add_u64 (queue cpu).process_count 1 });
      proc = update s.proc p (record (s.proc p) { cpu = cpu });
    }

pub do_sched_remove_ready : ℕ → Sched → Sched
do_sched_remove_ready p s =
    let cpu = (s.proc p).cpu in
    let queue = unlink s.queue p in
    record s {
      queue =
          update queue cpu
            (record (queue cpu) { process_count = sub_u64 (queue cpu).process_count 1 });
    }

with_data : ℕ → Sched → Option SchedData → Option Sched
with_data p s none = none
with_data p s (some d) = some (record s { proc = update s.proc p d })

pub do_sched_update_position : ℕ → ℕ → Sched → Sched
do_sched_update_position cpu p s = record s {
  queue = link_last (unlink s.queue p) cpu (s.proc p).priority p;
}

pub sched_enter : ℕ → Sched → Option Sched
sched_enter p s = elim (get_priority (s.proc p).class) [
  | none ↦ none
  | some l ↦ some (
      do_sched_set_ready p
        (record s { proc = update s.proc p (record (s.proc p) { priority = l }) }))
]

pub sched_set_ready : ℕ → Sched → Sched
sched_set_ready p s = do_sched_set_ready p s

-- `thread_bump_blocking` is the change by 1.
pub sched_set_blocking : ℕ → Sched → Option Sched
sched_set_blocking p s =
    let s' = do_sched_remove_ready p s in
    with_data p s' (clamped_priority_change plus_one (s'.proc p))

pub sched_leave : ℕ → Sched → Sched
sched_leave p s = do_sched_remove_ready p s

-- `for (i = n - 1; i >= 0; --i)`: the head of the first list that is not empty.
pick_level : (ℕ → List ℕ) → ℕ → Option ℕ
pick_level ready zero = none
pick_level ready (suc i) = elim (ready i) [ [] ↦ pick_level ready i | p ∷ _ ↦ some p ]

-- `none` is the null pointer that `ASSERT(ret)` rules out.
pub sched_pick_next : ℕ → Sched → Option ℕ
unfolding pick_level
sched_pick_next cpu s = pick_level (s.queue cpu).ready_list total_levels

-- `for (i = n; i > 0; --i)`: where the loop stops.
top_level : (ℕ → List ℕ) → ℕ → ℕ
top_level ready zero = 0
top_level ready (suc i) = elim (ready (suc i)) [ [] ↦ top_level ready i | _ ∷ _ ↦ suc i ]

pub sched_should_preempt : ℕ → Sched → Bool
unfolding top_level
sched_should_preempt cpu s =
    ltb (s.proc (s.current cpu)).priority (top_level (s.queue cpu).ready_list (total_levels - 1))

-- `idle_proc->sched_data` of `sched_start`; `none` is the PANIC of `get_quantum`.
idle_data : SchedData → Option SchedData
idle_data d =
    let d' = record d { class = SchedClass.idle; priority = 0 } in
    elim (get_quantum d') [ none ↦ none | some q ↦ some (record d' { quantum = q }) ]

-- `list_insert(node, &ready_list[level])`: at the head.
pub link_first : (ℕ → SchedQueue) → ℕ → ℕ → ℕ → ℕ → SchedQueue
link_first queue cpu level p = update queue cpu (record (queue cpu) {
  ready_list = update (queue cpu).ready_list level (p ∷ (queue cpu).ready_list level);
})

-- `sched_start` on `cpu`, with the process that `process_create` returned, less the call that arms
-- the first tick. `__process_load_context` makes it the current process and enables the scheduler.
-- Neither its `sched_data.cpu` nor the count of the run queue is set.
pub sched_start : ℕ → ℕ → Sched → Option Sched
unfolding idle_data link_first
sched_start cpu p s = elim (idle_data (s.proc p)) [
  | none ↦ none
  | some d ↦ some (record s {
    proc = update s.proc p d;
    queue = link_first s.queue cpu 0 p;
    current = update s.current cpu p;
    enabled = update s.enabled cpu true;
  })
]

-- What is left to do when a function of the scheduler returns: nothing, or
-- `process_switch_context(next)` of kernel/k_proc.c.
pub data Outcome : Type 0 where
  stay : Sched → Outcome
  switch_to : ℕ → Sched → Outcome

-- `sched_disable(); next->sched_data.quantum = get_quantum(next); process_switch_context(next);`
switch_away : ℕ → ℕ → Sched → Option Outcome
switch_away cpu next s = elim (get_quantum (s.proc next)) [
  | none ↦ none
  | some q ↦ some (
      Outcome.switch_to next (record s {
        enabled = update s.enabled cpu false;
        proc = update s.proc next (record (s.proc next) { quantum = q });
      }))
]

-- The end of the quantum: one level down, to the tail of its list, and on with the next process.
quantum_over : ℕ → Sched → Option Outcome
quantum_over cpu s =
    let cur = s.current cpu in
    elim (with_data cur s (clamped_priority_change minus_one (s.proc cur))) [
      | none ↦ none
      | some s' ↦
          let s'' = do_sched_update_position cpu cur s' in
          elim (sched_pick_next cpu s'') [
            | none ↦ none
            | some next ↦ if next == cur then some (Outcome.stay s'') else switch_away cpu next s''
          ]
    ]

charge : ℕ → Sched → Sched
charge cpu s =
    let cur = s.current cpu in
    record s {
      proc = update s.proc cur (record (s.proc cur) { quantum = sub_u64 (s.proc cur).quantum 10 });
    }

-- `sched_tick` on `cpu`, less the call that arms the next tick.
pub sched_tick : ℕ → Sched → Option Outcome
sched_tick cpu s =
    if sched_should_preempt cpu s
    then (elim (sched_pick_next cpu s) [
      | none ↦ none
      | some next ↦ switch_away cpu next (do_sched_update_position cpu (s.current cpu) s)
    ])
    else (let s' = charge cpu s in
        if (s'.proc (s'.current cpu)).quantum == 0
        then quantum_over cpu s'
        else some (Outcome.stay s'))

pub sched_resched : ℕ → Sched → Option Outcome
sched_resched cpu s =
    if s.enabled cpu
    then (elim (sched_pick_next cpu s) [
      | none ↦ none
      | some next ↦ elim (get_quantum (s.proc next)) [
        | none ↦ none
        | some q ↦
            let s' = record s {
              proc = update s.proc next (record (s.proc next) { quantum = q });
            } in
            if next == s.current cpu
            then some (Outcome.stay s')
            else some (Outcome.switch_to next (record s' { enabled = update s.enabled cpu false }))
      ]
    ])
    else some (Outcome.stay s)
