-- ===== src/Sched/Placed/Tick.antt =====
-- `sched_tick` and `sched_resched` keep each process in its place.
use yomotsu.Base.{
  ℕ, ◌≡◌, inl, inr, ◌⊎◌, refl, Bool, true, Option, some, arith, ◌==◌, Option-cases, Bool-cases,
}
use yomotsu.Level.{SchedData, clamped_priority_change, minus_one, get_quantum}
use yomotsu.Level.Policy.{cpu-clamped_priority_change}
use yomotsu.Sched.{
  Sched, Outcome, do_sched_update_position, sched_tick, sched_resched, with_data, quantum_over,
  switch_away, charge, sched_pick_next, sched_should_preempt,
}
use yomotsu.Sched.Placed.{
  cpu_of, Placed, Placed-but, update_position-Placed, with_proc, with_proc-PlacedBut,
}

-- The state with which a function of the scheduler returns or switches away.
abbrev pub left : Outcome → Sched
left (Outcome.stay s) = s
left (Outcome.switch_to next s) = s

pub Placed-frame :
    {linked : ℕ → Bool} {started : ℕ → Option ℕ} {s : Sched} (t : Sched)
    → Placed linked started s
    → t.queue ≡ s.queue
    → ((p : ℕ) → ((t.proc p).cpu ≡ (s.proc p).cpu) × ((t.proc p).priority ≡ (s.proc p).priority))
    → Placed linked started t
Placed-frame t v q same = record { place = λ p c l. rw (q, (same p).0, (same p).1) (v.place p c l) }

switch_away-Placed :
    {linked : ℕ → Bool} {started : ℕ → Option ℕ} {s : Sched} {o : Outcome} (cpu next : ℕ)
    → Placed linked started s
    → switch_away cpu next s ≡ some o
    → Placed linked started (left o)
unfolding switch_away
switch_away-Placed {linked} {started} {s} {o} cpu next v e =
    elim (Option-cases (get_quantum (s.proc next))) [
      | inl n ↦ absurd (ground arith)
      | inr (q, n) ↦ Placed-frame (left o) v (ground arith) (λ p. ground arith)
    ]

-- `sched_resched` moves no process.
pub resched-Placed :
    {linked : ℕ → Bool} {started : ℕ → Option ℕ} {s : Sched} {o : Outcome} (cpu : ℕ)
    → Placed linked started s
    → sched_resched cpu s ≡ some o
    → Placed linked started (left o)
unfolding sched_resched
resched-Placed {linked} {started} {s} {o} cpu v e =
    Placed-frame (left o) v (ground arith) (λ p. ground arith)

quantum_over_inv :
    (cpu : ℕ) (s : Sched) {o : Outcome}
    → quantum_over cpu s ≡ some o
    → (d : SchedData) × (clamped_priority_change minus_one (s.proc (s.current cpu)) ≡ some d)
      × (let s' = do_sched_update_position cpu (s.current cpu) (with_proc (s.current cpu) d s) in
          ((o ≡ Outcome.stay s') ⊎ ((next : ℕ) × (switch_away cpu next s' ≡ some o))))
unfolding quantum_over with_data with_proc
quantum_over_inv cpu s {o} e =
    elim (Option-cases (clamped_priority_change minus_one (s.proc (s.current cpu)))) [
      | inl n ↦ absurd (ground arith)
      | inr (d, n) ↦
          let s' = do_sched_update_position cpu (s.current cpu) (with_proc (s.current cpu) d s) in
          elim (Option-cases (sched_pick_next cpu s')) [
            | inl m ↦ absurd (ground arith)
            | inr (next, m) ↦ elim (Bool-cases (next == s.current cpu)) [
              | inl same ↦ (d, n, inl (ground arith))
              | inr differs ↦ (d, n, inr (next, ground arith))
            ]
          ]
    ]

quantum_over-Placed :
    {linked : ℕ → Bool} {started : ℕ → Option ℕ} {s : Sched} {o : Outcome} (cpu : ℕ)
    → linked (s.current cpu) ≡ true
    → cpu_of (started (s.current cpu)) (s.proc (s.current cpu)).cpu ≡ cpu
    → Placed linked started s
    → quantum_over cpu s ≡ some o
    → Placed linked started (left o)
unfolding with_proc
quantum_over-Placed {linked} {started} {s} {o} cpu on here v e =
    let cur = s.current cpu in
    let (d, ed, eo) = quantum_over_inv cpu s e in
    let moved =
      update_position-Placed cpu cur on
        (ground (arith, cpu-clamped_priority_change minus_one (s.proc cur) ed))
        (with_proc-PlacedBut cur d v) in
    elim eo [
      | inl stays ↦ rw stays moved
      | inr (next, away) ↦ switch_away-Placed cpu next moved away
    ]

tick_inv :
    (cpu : ℕ) (s : Sched) {o : Outcome}
    → sched_tick cpu s ≡ some o
    → ((next : ℕ) × (switch_away cpu next (do_sched_update_position cpu (s.current cpu) s)
          ≡ some o))
      ⊎ (quantum_over cpu (charge cpu s) ≡ some o)
      ⊎ (o ≡ Outcome.stay (charge cpu s))
unfolding sched_tick
tick_inv cpu s {o} e = elim (Bool-cases (sched_should_preempt cpu s)) [
  | inl pre ↦ elim (Option-cases (sched_pick_next cpu s)) [
    | inl n ↦ absurd (ground arith)
    | inr (next, n) ↦ inl (next, ground arith)
  ]
  | inr not ↦ inr (ground arith)
]

charge-Placed :
    {linked : ℕ → Bool} {started : ℕ → Option ℕ} {s : Sched} (cpu : ℕ)
    → Placed linked started s
    → Placed linked started (charge cpu s)
unfolding charge
charge-Placed cpu v = Placed-frame _ v refl (λ p. ground arith)

pub tick-Placed :
    {linked : ℕ → Bool} {started : ℕ → Option ℕ} {s : Sched} {o : Outcome} (cpu : ℕ)
    → linked (s.current cpu) ≡ true
    → cpu_of (started (s.current cpu)) (s.proc (s.current cpu)).cpu ≡ cpu
    → Placed linked started s
    → sched_tick cpu s ≡ some o
    → Placed linked started (left o)
tick-Placed {linked} {started} {s} cpu on here v e = elim (tick_inv cpu s e) [
  | inl (next, away) ↦
      switch_away-Placed cpu next
        (update_position-Placed cpu (s.current cpu) on here (Placed-but _ v)) away
  | inr (inl over) ↦
      unfold charge in quantum_over-Placed cpu on (ground arith) (charge-Placed cpu v) over
  | inr (inr stays) ↦ rw stays (charge-Placed cpu v)
]
