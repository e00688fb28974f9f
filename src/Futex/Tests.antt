-- ===== src/Futex/Tests.antt =====
-- The futexes of kernel/k_futex.c at concrete states.
use yomotsu.Base.{
  some, ℕ, ◌≢◌, ◌≡◌, refl, false, some, List, [], ◌∷◌, arith, ◌==◌, if◌then◌else◌, update, length,
}
use yomotsu.Level.{SchedClass}
use yomotsu.Sched.{sched_set_ready, Sched}
use yomotsu.Level.Policy.{HasRange}
use yomotsu.Futex.{
  enqueue, ProcState, Entry, Kernel, futex_init, enqueue, do_futex_wake, empty_bucket, futex_kwake,
}
use yomotsu.Futex.Wake.{chosen, passed_over, make_all_ready, do_futex_wake_lem}
use yomotsu.Futex.Wait.{enqueue_succeeds, Counted, wait_then_wake}
use yomotsu.Futex.Counted.{Roomy, Step, Reach, Reach-Counted}

abbrev calm : Sched
calm = record {
  cpu_count = 1;
  queue = λ cpu. record { process_count = 1; ready_list = λ l. [] };
  proc = λ p. record { class = SchedClass.normal; cpu = 0; priority = 3; quantum = 20 };
  current = λ cpu. 1;
  enabled = λ cpu. false;
}

abbrev quiet : Kernel
quiet = record {
  futex_size = 4;
  futex_hash = λ key. empty_bucket;
  state = λ p. ProcState.ready;
  terminate_flag = λ p. false;
  memory = λ a. 7;
  sched = calm;
}

-- Processes 5, 6 and 8 wait, the second one on another address.
abbrev three_waiters : List Entry
three_waiters =
    record { addr = 64; proc = 5 }
    ∷ record { addr = 68; proc = 6 }
    ∷ record { addr = 64; proc = 8 }
    ∷ []

abbrev waiting : Kernel
waiting = record quiet {
  futex_hash =
      λ key. if key == 0 then record { entries = three_waiters; waiters = 3 } else empty_bucket;
}

do_futex_wake_lem_example :
    do_futex_wake 0 64 2 waiting ≡ record (make_all_ready (chosen 2 64 three_waiters) waiting) {
      futex_hash = update waiting.futex_hash 0 (record {
        entries = passed_over 2 64 three_waiters;
        waiters = length (passed_over 2 64 three_waiters);
      });
    }
do_futex_wake_lem_example = do_futex_wake_lem 0 64 1 waiting (omega arith) refl (omega arith)

quiet-Counted : Counted quiet
quiet-Counted key = refl

abbrev after_wait : (k' : Kernel) × (enqueue 0 64 1 quiet ≡ some k')
after_wait = enqueue_succeeds 0 64 1 quiet HasRange.normal

wait_then_wake_example :
    (after_wait.0.state 1 ≡ ProcState.blocked)
    × (let woken = do_futex_wake 0 64 1 after_wait.0 in
        (woken.state 1 ≡ ProcState.ready)
        × ((q : ℕ) → q ≢ 1 → woken.state q ≡ quiet.state q)
        × (woken.sched ≡ sched_set_ready 1 after_wait.0.sched)
        × (woken.futex_hash ≡ quiet.futex_hash))
wait_then_wake_example =
    wait_then_wake 0 64 1 quiet after_wait.0 quiet-Counted (omega arith) after_wait.1

abbrev initialised : Kernel
initialised = futex_init 1 quiet

initialised-Roomy : Roomy initialised
unfolding futex_init
initialised-Roomy key = omega arith

abbrev woken : Reach initialised (futex_kwake 64 1 initialised)
woken = Reach.more Reach.here initialised-Roomy (Step.kwake 64 0 (omega arith))

Reach-Counted_example : Counted (futex_kwake 64 1 initialised)
Reach-Counted_example = Reach-Counted 1 quiet woken
