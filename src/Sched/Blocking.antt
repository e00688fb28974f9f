-- ===== src/Sched/Blocking.antt =====
-- `sched_set_blocking` of kernel/k_sched.c does not panic.
use yomotsu.Base.{ℕ, ◌≡◌, some, inl, inr, Option-cases, arith}
use yomotsu.Level.{plus_one}
use yomotsu.Level.Policy.{HasRange, priority_change_succeeds}
use yomotsu.Sched.{Sched, sched_set_blocking, with_data, do_sched_remove_ready}

-- The change of priority of `sched_set_blocking` does not panic for a class with a range.
pub set_blocking_succeeds :
    (p : ℕ) (s : Sched)
    → HasRange (s.proc p).class
    → (t : Sched) × (sched_set_blocking p s ≡ some t)
unfolding sched_set_blocking with_data do_sched_remove_ready
set_blocking_succeeds p s h =
    let (q, e) = priority_change_succeeds plus_one (s.proc p) h in
    elim (Option-cases (sched_set_blocking p s)) [ inl n ↦ absurd (ground arith) | inr r ↦ r ]
