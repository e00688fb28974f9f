-- ===== src/Sched/Placed/Steps.antt =====
-- Any sequence of calls of the scheduler keeps each process in its place.
use yomotsu.Base.{occurs-nil, ℕ, ◌≡◌, refl, Bool, true, false, Option, none, some, update}
use yomotsu.Sched.{
  Sched, Outcome, sched_start, sched_enter, sched_set_ready, sched_set_blocking, sched_leave,
  sched_tick, sched_resched, sched_init,
}
use yomotsu.Sched.Placed.{
  cpu_of, start-Placed, Placed, Placed-but, unlinked_everywhere, set_ready-Placed,
  remove_ready-Placed, enter-Placed, set_blocking-Placed,
}
use yomotsu.Sched.Placed.Tick.{left, Placed-frame, resched-Placed, tick-Placed}

-- The scheduler as the rest of the kernel drives it: the set of the processes that are linked in
-- a run queue, where each idle process that `sched_start` linked was started, and the scheduler's
-- state.
pub record World : Type 0 where
  pub linked : ℕ → Bool
  pub started : ℕ → Option ℕ
  pub sched : Sched

abbrev pub world : (ℕ → Bool) → (ℕ → Option ℕ) → Sched → World
world linked started s = record { linked = linked; started = started; sched = s }

-- The CPU in whose run queue a process of the world stands, if it is linked.
abbrev pub home : World → ℕ → ℕ
home w p = cpu_of (w.started p) (w.sched.proc p).cpu

-- The state after the switch of context that an outcome asks for: `__process_load_context` makes
-- the target the current process and enables the scheduler.
abbrev pub resume : ℕ → Outcome → Sched
resume cpu (Outcome.stay s) = s
resume cpu (Outcome.switch_to next s) = record s {
  current = update s.current cpu next;
  enabled = update s.enabled cpu true;
}

-- One call of an entry point of the scheduler, under what the callers grant: a process is linked
-- only while it is not, and a tick comes while the current process is linked on that CPU.
pub data Step (w : World) : World → Type 0 where
  start :
      (cpu p : ℕ) {t : Sched}
      → w.linked p ≡ false
      → sched_start cpu p w.sched ≡ some t
      → Step w (world (update w.linked p true) (update w.started p (some cpu)) t)
  enter :
      (p : ℕ) {t : Sched}
      → w.linked p ≡ false
      → sched_enter p w.sched ≡ some t
      → Step w (world (update w.linked p true) (update w.started p none) t)
  set_ready :
      (p : ℕ)
      → w.linked p ≡ false
      → Step w
          (world (update w.linked p true) (update w.started p none) (sched_set_ready p w.sched))
  set_blocking :
      (p : ℕ) {t : Sched}
      → sched_set_blocking p w.sched ≡ some t
      → Step w (world (update w.linked p false) w.started t)
  leave : (p : ℕ) → Step w (world (update w.linked p false) w.started (sched_leave p w.sched))
  tick :
      (cpu : ℕ) {o : Outcome}
      → w.linked (w.sched.current cpu) ≡ true
      → home w (w.sched.current cpu) ≡ cpu
      → sched_tick cpu w.sched ≡ some o
      → Step w (world w.linked w.started (resume cpu o))
  resched :
      (cpu : ℕ) {o : Outcome}
      → sched_resched cpu w.sched ≡ some o
      → Step w (world w.linked w.started (resume cpu o))

pub data Reach (w : World) : World → Type 0 where
  here : Reach w w
  more : {u v : World} → Reach w u → Step u v → Reach w v

resume-Placed :
    {linked : ℕ → Bool} {started : ℕ → Option ℕ} (cpu : ℕ) (o : Outcome)
    → Placed linked started (left o)
    → Placed linked started (resume cpu o)
resume-Placed cpu (Outcome.stay s) v = v
resume-Placed cpu (Outcome.switch_to next s) v = Placed-frame _ v refl (λ p. (refl, refl))

Step-Placed :
    {w u : World} → Step w u → Placed w.linked w.started w.sched → Placed u.linked u.started u.sched
unfolding sched_set_ready sched_leave
Step-Placed (start cpu p off e) v = start-Placed cpu p off v e
Step-Placed (enter p off e) v = enter-Placed p off v e
Step-Placed (set_ready p off) v =
    set_ready-Placed p off (Placed-but p v) (unlinked_everywhere p v off)
Step-Placed (set_blocking p e) v = set_blocking-Placed p v e
Step-Placed (leave p) v = remove_ready-Placed p v
Step-Placed (tick cpu {o} on at e) v = resume-Placed cpu o (tick-Placed cpu on at v e)
Step-Placed (resched cpu {o} e) v = resume-Placed cpu o (resched-Placed cpu v e)

init-Placed : (s : Sched) → Placed (λ _. false) (λ _. none) (sched_init s)
unfolding sched_init
init-Placed s = record { place = λ p c l. occurs-nil p }

-- After `sched_init` and any sequence of calls of `sched_start`, `sched_enter`, `sched_set_ready`,
-- `sched_set_blocking`, `sched_leave`, `sched_tick` and `sched_resched`, where a process is started,
-- enters or becomes ready only while it is not linked, and a tick comes while the current process is
-- linked on that CPU, each process that is linked stands exactly once in the run queues, in the list
-- of its own priority and of its CPU, and a process that is not linked stands in none. The CPU of a
-- process is that of its `sched_data`, but for an idle process that `sched_start` linked it is the
-- one that this ran on.
pub Reach-Placed :
    (s : Sched) {w : World}
    → Reach (world (λ _. false) (λ _. none) (sched_init s)) w
    → Placed w.linked w.started w.sched
Reach-Placed s here = init-Placed s
Reach-Placed s (more r st) = Step-Placed st (Reach-Placed s r)
