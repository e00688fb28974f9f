-- ===== src/Futex/Counted.antt =====
-- The counts of waiters of kernel/k_futex.c, over any sequence of calls.
use yomotsu.Base.{
  ℕ, suc, ◌+◌, ◌<◌, ◌≡◌, inl, inr, refl, Option, none, some, arith, ◌==◌, u64_mod, Bool-cases,
}
use yomotsu.Sched.{Outcome, sched_resched}
use yomotsu.Futex.{
  Kernel, with_outcome, enqueue, turn_away, then_resched, wait_on, futex_init, futex_kwait,
  futex_wait, do_futex_wake, futex_kwake, futex_wake, resched, process_terminate, current_process,
}
use yomotsu.Futex.Wake.{do_futex_wake_lem}
use yomotsu.Futex.Wait.{Counted, enqueue_inv}

-- No bucket has all but one of the 2 ^ 64 waiters that its count can hold.
abbrev pub Roomy : Kernel → Type 0
Roomy k = (key : ℕ) → (k.futex_hash key).waiters + 1 < u64_mod

Counted-frame : (k k' : Kernel) → Counted k → k'.futex_hash ≡ k.futex_hash → Counted k'
Counted-frame k k' c e = λ key. rw e (c key)

with_outcome_inv :
    (k : Kernel) (o : Option Outcome) {k' : Kernel} {next : Option ℕ}
    → with_outcome k o ≡ some (k', next)
    → k'.futex_hash ≡ k.futex_hash
unfolding with_outcome
with_outcome_inv k none e = cc
with_outcome_inv k (some (Outcome.stay s)) e = ground arith
with_outcome_inv k (some (Outcome.switch_to n s)) e = ground arith

resched-Counted :
    (cpu : ℕ) (k : Kernel) {k' : Kernel} {next : Option ℕ}
    → Counted k
    → resched cpu k ≡ some (k', next)
    → Counted k'
unfolding resched
resched-Counted cpu k {k'} c e =
    Counted-frame k k' c (with_outcome_inv k (sched_resched cpu k.sched) e)

then_resched-Counted :
    (cpu : ℕ) (o : Option Kernel) {k' : Kernel} {next : Option ℕ}
    → ((k : Kernel) → o ≡ some k → Counted k)
    → then_resched cpu o ≡ some (k', next)
    → Counted k'
unfolding then_resched
then_resched-Counted cpu none c e = cc
then_resched-Counted cpu (some k) c e = resched-Counted cpu k (c k refl) e

enqueue-Counted :
    (key addr p : ℕ) (k k' : Kernel)
    → Counted k
    → Roomy k
    → enqueue key addr p k ≡ some k'
    → Counted k'
enqueue-Counted key addr p k k' c room e =
    let (s, blocking, made) = enqueue_inv key addr p k e in
    rw made (λ j. ground (arith, c j, c key, room key))

turn_away-Counted : (key : ℕ) (k : Kernel) → Counted k → Roomy k → Counted (turn_away key k)
unfolding turn_away
turn_away-Counted key k c room = λ j. ground (arith, c j, c key, room key)

wait_on-Counted :
    (cpu key addr word val : ℕ) (k : Kernel) {k' : Kernel} {next : Option ℕ}
    → Counted k
    → Roomy k
    → wait_on cpu key addr word val k ≡ some (k', next)
    → Counted k'
unfolding wait_on
wait_on-Counted cpu key addr word val k {k'} {next} c room e =
    elim (Bool-cases (k.memory word == val)) [
      | inl same ↦
          then_resched-Counted cpu (enqueue key addr (current_process cpu k) k) {k' = k'}
            {next = next} (λ k₁ e₁. enqueue-Counted key addr _ k k₁ c room e₁) (ground arith)
      | inr differs ↦
          let gone : k' ≡ turn_away key k = ground arith in rw gone (turn_away-Counted key k c room)
    ]

wake-Counted :
    (key addr n : ℕ) (k : Kernel)
    → suc n < u64_mod
    → Counted k
    → Roomy k
    → Counted (do_futex_wake key addr (suc n) k)
wake-Counted key addr n k hn c room =
    rw (do_futex_wake_lem key addr n k hn (c key) (omega (arith, room key)))
      (λ j. ground (arith, c j))

terminate-Counted : (p : ℕ) (k : Kernel) → Counted k → Counted (process_terminate p k)
unfolding process_terminate
terminate-Counted p k c = c

-- A call of a function of the module; a wake is for one process at least.
pub data Step (k : Kernel) : Kernel → Type 0 where
  kwait :
      (cpu addr val : ℕ) {k' : Kernel} {next : Option ℕ}
      → futex_kwait cpu addr val k ≡ some (k', next)
      → Step k k'
  wait :
      (cpu : ℕ) (paddr : Option ℕ) (val : ℕ) {k' : Kernel} {next : Option ℕ}
      → futex_wait cpu paddr val k ≡ some (k', next)
      → Step k k'
  kwake : (addr n : ℕ) → suc n < u64_mod → Step k (futex_kwake addr (suc n) k)
  wake :
      (cpu : ℕ) (paddr : Option ℕ) (n : ℕ)
      → suc n < u64_mod
      → Step k (futex_wake cpu paddr (suc n) k)

Step-Counted : {k k' : Kernel} → Step k k' → Counted k → Roomy k → Counted k'
unfolding futex_kwait futex_wait futex_kwake futex_wake
Step-Counted {k} (kwait cpu addr val e) c room = wait_on-Counted cpu _ addr addr val k c room e
Step-Counted {k} (wait cpu none val e) c room =
    resched-Counted cpu _ (terminate-Counted (current_process cpu k) k c) e
Step-Counted {k} (wait cpu (some paddr) val e) c room = wait_on-Counted cpu _ paddr _ val k c room e
Step-Counted {k} (kwake addr n h) c room = wake-Counted _ addr n k h c room
Step-Counted {k} (wake cpu none n h) c room = terminate-Counted (current_process cpu k) k c
Step-Counted {k} (wake cpu (some paddr) n h) c room = wake-Counted _ paddr n k h c room

-- A sequence of calls, none of which finds a full bucket.
pub data Reach (k : Kernel) : Kernel → Type 0 where
  here : Reach k k
  more : {u v : Kernel} → Reach k u → Roomy u → Step u v → Reach k v

init-Counted : (cpu_count : ℕ) (k : Kernel) → Counted (futex_init cpu_count k)
unfolding futex_init
init-Counted cpu_count k key = refl

-- After `futex_init` and any sequence of waits, and of wakes with a count of at least 1, none of
-- which finds a bucket of 2 ^ 64 - 1 waiters, the count of waiters of each bucket is the number of
-- its entries.
pub Reach-Counted :
    (cpu_count : ℕ) (k : Kernel) {k' : Kernel} → Reach (futex_init cpu_count k) k' → Counted k'
Reach-Counted cpu_count k here = init-Counted cpu_count k
Reach-Counted cpu_count k (more r room st) = Step-Counted st (Reach-Counted cpu_count k r) room
