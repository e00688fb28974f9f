-- ===== src/Mutex/Tests.antt =====
-- The mutexes of kernel/k_mutex.c at concrete states.
use yomotsu.Base.{ℕ, ◌<◌, ◌≡◌, ◌≢◌, refl, true, false, [], ◌∷◌, arith, occurs, occurs-head}
use yomotsu.Mutex.{
  Locks, Step, Reach, mutex_try_acquire, dual_order, all_free, with_plan, with_owner, Local,
}
use yomotsu.Mutex.Steps.{mutex_excludes}
use yomotsu.Mutex.Progress.{CarefulReach, Moves, no_deadlock}

abbrev me : ℕ
me = 7

abbrev low : ℕ
low = 8

abbrev high : ℕ
high = 16

-- Process 7 asks for the mutexes 16 and 8.
abbrev asked : Locks
asked = with_plan 7 [] (8 ∷ 16 ∷ []) all_free

-- It has taken the first of them.
abbrev half : Locks
half = with_owner 8 7 (with_plan 7 (8 ∷ []) (16 ∷ []) asked)

asked-step : Step all_free asked
unfolding dual_order
asked-step = Step.ask_dual 7 16 8 (omega arith) refl

half-step : Step asked half
unfolding mutex_try_acquire
half-step = Step.try 7 8 7 (16 ∷ []) (omega arith) refl refl

half-Reach : Reach half
half-Reach = Reach.more (Reach.more Reach.start asked-step) half-step

eight_held : 0 < occurs 8 (half.plan 7).held
eight_held = occurs-head 8 []

mutex_excludes_example : (me ≡ me) × (occurs 8 (half.plan 7).held ≡ 1) × (half.owner 8 ≡ 7)
mutex_excludes_example = mutex_excludes 8 7 7 half-Reach eight_held eight_held

half-CarefulReach : CarefulReach half
unfolding dual_order mutex_try_acquire
half-CarefulReach =
    CarefulReach.more
      (CarefulReach.more CarefulReach.start (Step.ask_dual 7 16 8 (omega arith) refl)
        (refl, omega arith, omega arith, omega arith))
      (Step.try 7 8 7 (16 ∷ []) (omega arith) refl refl) tt

no_deadlock_example : (q : ℕ) × (q ≢ 0) × Moves half q
no_deadlock_example = no_deadlock 7 16 [] half-CarefulReach (omega arith) refl

abbrev none_owned : ℕ → ℕ
none_owned m = 0

abbrev unlocked : Local
unlocked = record { lock = record { locked = false; owner = 0 }; enabled = true }
