-- ===== src/Sched/Tests.antt =====
-- The scheduler of kernel/k_sched.c at concrete states.
use yomotsu.Base.{
  none, some, u64_mod, ◌-◌, ◌≡◌, refl, true, false, [], ◌∷◌, ◌==◌, if◌then◌else◌, update,
}
use yomotsu.Level.{SchedClass, SchedData, get_quantum}
use yomotsu.Sched.{
  Sched, total_levels, sched_pick_next, sched_init, sched_set_ready, sched_leave, sched_start,
  link_first, idle_data, do_sched_set_ready,
}
use yomotsu.Sched.Pick.{Picks, pick_next-Picks}
use yomotsu.Sched.Placed.{Placed}
use yomotsu.Sched.Placed.Steps.{world, Step, Reach, Reach-Placed}

abbrev at_top : SchedData
at_top = record { class = SchedClass.normal; cpu = 0; priority = 15; quantum = 20 }

-- Two CPUs. CPU 0 runs process 1 and has process 2 at level 15 behind process 1; CPU 1 is empty.
abbrev busy : Sched
busy = record {
  cpu_count = 2;
  queue = λ cpu.
      if cpu == 0
      then record { process_count = 2; ready_list = λ l. if l == 15 then 1 ∷ 2 ∷ [] else [] }
      else record { process_count = 0; ready_list = λ l. [] };
  proc = λ p. at_top;
  current = λ cpu. 1;
  enabled = λ cpu. true;
}

pick_next-Picks_example : Picks (busy.queue 0).ready_list total_levels (sched_pick_next 0 busy)
pick_next-Picks_example = pick_next-Picks 0 busy

abbrev started : Sched
started = sched_init busy

abbrev ready_again : Sched
ready_again = sched_set_ready 4 started

abbrev with_idle : Sched
with_idle = record ready_again {
  proc =
      update ready_again.proc 9
        (record at_top { class = SchedClass.idle; priority = 0; quantum = u64_mod - 1 });
  queue = link_first ready_again.queue 1 0 9;
  current = update ready_again.current 1 9;
  enabled = update ready_again.enabled 1 true;
}

idle_starts : sched_start 1 9 ready_again ≡ some with_idle
unfolding sched_start idle_data get_quantum sched_set_ready do_sched_set_ready sched_init
idle_starts = refl

-- Process 4 becomes ready, the idle process 9 is started on CPU 1, and process 4 leaves.
left_again : Reach (world (λ _. false) (λ _. none) started) (
    world
      (update (update (update (λ _. false) 4 true) 9 true) 4 false)
      (update (update (λ _. none) 4 none) 9 (some 1))
      (sched_leave 4 with_idle))
left_again =
    Reach.more
      (Reach.more (Reach.more Reach.here (Step.set_ready 4 refl)) (Step.start 1 9 refl idle_starts))
      (Step.leave 4)

Reach-Placed_example :
    Placed
      (update (update (update (λ _. false) 4 true) 9 true) 4 false)
      (update (update (λ _. none) 4 none) 9 (some 1))
      (sched_leave 4 with_idle)
Reach-Placed_example = Reach-Placed busy left_again
