-- ===== src/Sched/Pick.antt =====
-- Which CPU and which process the scheduler of kernel/k_sched.c picks.
use yomotsu.Base.{
  ℕ, zero, suc, ◌+◌, ◌-◌, ◌≤◌, ◌<◌, ◌≡◌, ◌≢◌, ◌↔◌, ◌⊎◌, inl, inr, refl, true, Option, none, some,
  List, [], ◌∷◌, arith, ltb, if◌then◌else◌, u64_mod, Bool-cases, subst, lt→ltb, ltb→lt, dec_lt,
}
use yomotsu.Sched.{
  Sched, SchedQueue, pick_cpu_loop, sched_pick_cpu, pick_level, sched_pick_next, top_level,
  sched_should_preempt, total_levels,
}

-- What `pick_level` finds below `n`: nothing, or the head of the highest list that is not empty.
abbrev pub Picks : (ℕ → List ℕ) → ℕ → Option ℕ → Type 0
Picks ready n r =
    ((r ≡ none) × ((k : ℕ) → k < n → ready k ≡ []))
    ⊎ ((l p : ℕ) × (rest : List ℕ) × (r ≡ some p)
        × (l < n)
        × (ready l ≡ p ∷ rest)
        × ((k : ℕ) → l < k → k < n → ready k ≡ []))

List-cases : (xs : List ℕ) → (xs ≡ []) ⊎ ((p : ℕ) × (rest : List ℕ) × (xs ≡ p ∷ rest))
List-cases [] = inl refl
List-cases (p ∷ rest) = inr (p, rest, refl)

extend_empty :
    (ready : ℕ → List ℕ) (n l : ℕ)
    → ready n ≡ []
    → ((k : ℕ) → l < k → k < n → ready k ≡ [])
    → (k : ℕ) → l < k
    → k < suc n
    → ready k ≡ []
extend_empty ready n l e h k lo hi = grind (arith, e, h k)

pick_level-Picks : (ready : ℕ → List ℕ) (n : ℕ) → Picks ready n (pick_level ready n)
unfolding pick_level
pick_level-Picks ready zero = inl (refl, λ k h. elim h [ ])
pick_level-Picks ready (suc n) = elim (List-cases (ready n)) [
  | inl e ↦ elim (pick_level-Picks ready n) [
    | inl (r, h) ↦ inl (rw (e, pick_level) r, λ k hk. grind (arith, e, h k))
    | inr (l, p, rest, r, hl, el, h) ↦
        inr (l, p, rest, rw (e, pick_level) r, omega arith, el, extend_empty ready n l e h)
  ]
  | inr (p, rest, e) ↦
      inr (n, p, rest, rw (e, pick_level) refl, omega arith, e, λ k lo hi. absurd (omega arith))
]

-- `sched_pick_next` returns the process at the head of the highest level whose list is not empty,
-- and the null pointer exactly if all 64 lists of the CPU are empty.
pub pick_next-Picks :
    (cpu : ℕ) (s : Sched) → Picks (s.queue cpu).ready_list total_levels (sched_pick_next cpu s)
unfolding sched_pick_next
pick_next-Picks cpu s = pick_level-Picks (s.queue cpu).ready_list total_levels

abbrev Top : (ℕ → List ℕ) → ℕ → ℕ → Type 0
Top ready n t = (t ≤ n) × ((t ≡ 0) ⊎ (ready t ≢ [])) × ((k : ℕ) → t < k → k ≤ n → ready k ≡ [])

top_level-Top : (ready : ℕ → List ℕ) (n : ℕ) → Top ready n (top_level ready n)
unfolding top_level
top_level-Top ready zero = (omega arith, inl refl, λ k lo hi. absurd (omega arith))
top_level-Top ready (suc n) = elim (List-cases (ready (suc n))) [
  | inl e ↦
      let (le, some_here, above) = top_level-Top ready n in
      rw (e, top_level) (omega arith, some_here, λ k lo hi. grind (arith, e, above k))
  | inr (p, rest, e) ↦ rw (e, top_level) (omega arith, inr (cc), λ k lo hi. absurd (omega arith))
]

nonempty_of_lt :
    (ready : ℕ → List ℕ) (prio t : ℕ) → prio < t → (t ≡ 0) ⊎ (ready t ≢ []) → ready t ≢ []
nonempty_of_lt ready prio t h (inl z) = absurd (omega arith)
nonempty_of_lt ready prio t h (inr ne) = ne

-- `sched_should_preempt` is true exactly if a process waits on this CPU at a level above that of
-- the current process.
pub should_preempt_iff :
    (cpu : ℕ) (s : Sched)
    → (sched_should_preempt cpu s ≡ true) ↔ (
        (l : ℕ) × ((s.proc (s.current cpu)).priority < l)
        × (l < total_levels)
        × ((s.queue cpu).ready_list l ≢ []))
unfolding sched_should_preempt
should_preempt_iff cpu s = (
  (λ h.
      let lt = ltb→lt prio (top_level ready 63) h in
      (
        top_level ready 63,
        lt,
        omega (arith, top.0),
        nonempty_of_lt ready prio (top_level ready 63) lt top.1,
      )),
  (λ w. elim (dec_lt prio (top_level ready 63)) [
    | yes lt ↦ lt→ltb _ _ lt
    | no ge ↦ absurd (w.3 (top.2 w.0 (omega arith) (omega arith)))
  ]),
)
  where
    prio : ℕ
    prio = (s.proc (s.current cpu)).priority

    ready : ℕ → List ℕ
    ready = (s.queue cpu).ready_list

    top : Top ready 63 (top_level ready 63)
    top = top_level-Top ready 63

-- Which CPU the loop of `sched_pick_cpu` has settled on, having looked at those below `i`.
record Least (queue : ℕ → SchedQueue) (i ret count : ℕ) : Type 0 where
  least : (k : ℕ) → k < i → count ≤ (queue k).process_count
  known : ((ret < i) × ((queue ret).process_count ≡ count)) ⊎ ((ret ≡ 0) × (count ≡ u64_mod - 1))

Least-step :
    (queue : ℕ → SchedQueue) (i ret count : ℕ)
    → Least queue i ret count
    → let c = (queue i).process_count in
      Least queue (i + 1) (if ltb c count then i else ret) (if ltb c count then c else count)
Least-step queue i ret count v = elim (Bool-cases (ltb (queue i).process_count count)) [
  | inl e ↦
      rw e (record { least = λ k h. grind (arith, v.least k); known = inl (omega arith, refl) })
  | inr e ↦ rw e (record { least = λ k h. grind (arith, v.least k); known = grind arith })
]

pick_cpu_loop-Least :
    (queue : ℕ → SchedQueue) (n i ret count j : ℕ)
    → i + n ≡ j
    → Least queue i ret count
    → (c : ℕ) × Least queue j (pick_cpu_loop queue n i ret count) c
unfolding pick_cpu_loop
pick_cpu_loop-Least queue zero i ret count j e v =
    (count, subst (λ k. Least queue k ret count) (omega arith) v)
pick_cpu_loop-Least queue (suc n) i ret count j e v =
    pick_cpu_loop-Least queue n (i + 1) _ _ j (omega arith) (Least-step queue i ret count v)

-- With at least one CPU and every count a word, `sched_pick_cpu` returns one of the CPUs, and no
-- CPU has fewer processes than that one.
pub pick_cpu_least :
    (s : Sched)
    → 0 < s.cpu_count
    → ((k : ℕ) → k < s.cpu_count → (s.queue k).process_count < u64_mod)
    → (sched_pick_cpu s < s.cpu_count)
      × ((k : ℕ)
          → k < s.cpu_count
          → (s.queue (sched_pick_cpu s)).process_count ≤ (s.queue k).process_count)
unfolding sched_pick_cpu
pick_cpu_least s pos words =
    least_of_all (pick_cpu_loop-Least s.queue s.cpu_count 0 0 _ s.cpu_count (omega arith) start)
  where
    start : Least s.queue 0 0 (u64_mod - 1)
    start = record { least = λ k h. elim h [ ]; known = inr (refl, refl) }

    least_of_all :
        (c : ℕ) × Least s.queue s.cpu_count (sched_pick_cpu s) c
        → (sched_pick_cpu s < s.cpu_count)
          × ((k : ℕ)
              → k < s.cpu_count
              → (s.queue (sched_pick_cpu s)).process_count ≤ (s.queue k).process_count)
    least_of_all (c, v) = (grind arith, λ k h. grind (arith, v.least k, words 0))
