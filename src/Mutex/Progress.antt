-- ===== src/Mutex/Progress.antt =====
-- The order of `mutex_acquire_dual`, kernel/k_mutex.c, leaves no deadlock.
use yomotsu.Base.{
  ℕ, zero, suc, ◌+◌, ◌≤◌, ◌<◌, ◌≡◌, ◌≢◌, ◌⊎◌, inl, inr, refl, true, some, List, [], ◌∷◌, arith,
  ◌==◌, sym, subst, update, occurs, erase, occurs-erase, ltb, occurs-cons, occurs-nil, ℕ_discrete,
  Bool-cases, u64_mod,
}
use yomotsu.Mutex.{Plan, Locks, Step, Reach, all_free, mutex_try_acquire, mutex_release, dual_order}
use yomotsu.Mutex.Steps.{Reach-IsOwned}

-- The mutexes of the list come in the order of their addresses, from above `m` on.
abbrev pub Ascends : ℕ → List ℕ → Type 0
Ascends m [] = Unit
Ascends m (x ∷ xs) = (m < x) × Ascends x xs

abbrev pub Ascending : List ℕ → Type 0
Ascending [] = Unit
Ascending (x ∷ xs) = (x < u64_mod) × Ascends x xs × Ascending xs

-- A process has still to take only mutexes above those that it holds, in ascending order.
pub record IsOrdered (a : Plan) : Type 0 where
  pub bounded : (m : ℕ) → 0 < occurs m a.held → m < u64_mod
  pub above : (m : ℕ) → 0 < occurs m a.held → Ascends m a.want
  pub ascending : Ascending a.want

-- A process asks only when it holds nothing, and for two mutexes only if they are two.
abbrev pub IsCareful : {s s' : Locks} → Step s s' → Type 0
IsCareful {s} (Step.ask_one p m ne w) = ((s.plan p).held ≡ []) × (m < u64_mod)
IsCareful {s} (Step.ask_dual p m1 m2 ne w) =
    ((s.plan p).held ≡ []) × (m1 ≢ m2) × (m1 < u64_mod) × (m2 < u64_mod)
IsCareful _ = Unit

pub data CarefulReach : Locks → Type 0 where
  start : CarefulReach all_free
  more : {s s' : Locks} → CarefulReach s → (t : Step s s') → IsCareful t → CarefulReach s'

-- A step that takes a mutex or gives one back.
pub data Moves (s : Locks) (p : ℕ) : Type 0 where
  takes :
      (m : ℕ) (want : List ℕ)
      → (s.plan p).want ≡ m ∷ want
      → mutex_try_acquire p (s.owner m) ≡ (true, p)
      → Moves s p
  gives :
      (m : ℕ)
      → (s.plan p).want ≡ []
      → 0 < occurs m (s.plan p).held
      → mutex_release p (s.owner m) ≡ some 0
      → Moves s p

List-cases : (xs : List ℕ) → (xs ≡ []) ⊎ ((x : ℕ) × (ys : List ℕ) × (xs ≡ x ∷ ys))
List-cases [] = inl refl
List-cases (x ∷ xs) = inr (x, xs, refl)

release_mine : (p : ℕ) → mutex_release p p ≡ some 0
unfolding mutex_release
release_mine p = ground arith

try_free : (p w : ℕ) → w ≡ 0 → mutex_try_acquire p w ≡ (true, p)
unfolding mutex_try_acquire
try_free p w e = ground arith

pub CarefulReach-Reach : {s : Locks} → CarefulReach s → Reach s
CarefulReach-Reach CarefulReach.start = Reach.start
CarefulReach-Reach (CarefulReach.more r t c) = Reach.more (CarefulReach-Reach r) t

AllOrdered : Locks → Type 0
AllOrdered s = (p : ℕ) → IsOrdered (s.plan p)

IsOrdered-ask : (want : List ℕ) → Ascending want → IsOrdered (record { held = []; want = want })
IsOrdered-ask want a = record {
  bounded = λ m h. absurd (omega (arith, occurs-nil m));
  above = λ m h. absurd (omega (arith, occurs-nil m));
  ascending = a;
}

dual_order-Ascending :
    (m1 m2 : ℕ) → m1 ≢ m2 → m1 < u64_mod → m2 < u64_mod → Ascending (dual_order m1 m2)
unfolding dual_order
dual_order-Ascending m1 m2 ne lt1 lt2 = elim (Bool-cases (ltb m1 m2)) [
  | inl e ↦ rw e (lt1, (ground arith, tt), (lt2, tt, tt))
  | inr e ↦ rw e (lt2, (ground arith, tt), (lt1, tt, tt))
]

plan_at :
    (p : ℕ) (a : Plan) (s : Locks)
    → IsOrdered a
    → AllOrdered s
    → (q : ℕ) → IsOrdered (update s.plan p a q)
unfolding AllOrdered
plan_at p a s i o q = elim (Bool-cases (q == p)) [ inl e ↦ rw e i | inr e ↦ rw e (o q) ]

Ascends-below : (m' m : ℕ) (xs : List ℕ) → m' < m → Ascends m xs → Ascends m' xs
Ascends-below m' m [] lt a = tt
Ascends-below m' m (x ∷ xs) lt a = (omega (arith, a.0), a.1)

held_before : (m' m : ℕ) (held : List ℕ) → m' ≢ m → 0 < occurs m' (m ∷ held) → 0 < occurs m' held
held_before m' m held ne h = let c = occurs-cons m' m held in ground arith

held_after : (m' m : ℕ) (held : List ℕ) → 0 < occurs m' (erase m held) → 0 < occurs m' held
held_after m' m held h = let c = occurs-erase m' m held in ground arith

IsOrdered-take :
    (m : ℕ) (held want : List ℕ)
    → IsOrdered (record { held = held; want = m ∷ want })
    → IsOrdered (record { held = m ∷ held; want = want })
IsOrdered-take m held want i = record {
  bounded = λ m' h. elim (ℕ_discrete m' m) [
    | yes e ↦ rw e i.ascending.0
    | no ne ↦ i.bounded m' (held_before m' m held ne h)
  ];
  above = λ m' h. elim (ℕ_discrete m' m) [
    | yes e ↦ subst (λ x. Ascends x want) (sym e) i.ascending.1
    | no ne ↦
        let was = i.above m' (held_before m' m held ne h) in Ascends-below m' m want was.0 was.1
  ];
  ascending = i.ascending.2;
}

IsOrdered-give :
    (m : ℕ) (held : List ℕ)
    → IsOrdered (record { held = held; want = [] })
    → IsOrdered (record { held = erase m held; want = [] })
IsOrdered-give m held i = record {
  bounded = λ m' h. i.bounded m' (held_after m' m held h);
  above = λ m' h. tt;
  ascending = tt;
}

-- The plan of `p`, with what it wants written out.
wanting :
    (s : Locks) {w : List ℕ} (p : ℕ)
    → (s.plan p).want ≡ w
    → AllOrdered s
    → IsOrdered (record { held = (s.plan p).held; want = w })
unfolding AllOrdered
wanting s p e o = subst (λ w. IsOrdered (record { held = (s.plan p).held; want = w })) e (o p)

asking :
    {held want : List ℕ}
    → held ≡ []
    → Ascending want
    → IsOrdered (record { held = held; want = want })
asking {want = want} e a =
    subst (λ h. IsOrdered (record { held = h; want = want })) (sym e) (IsOrdered-ask want a)

Step-AllOrdered : {s s' : Locks} (t : Step s s') → IsCareful t → AllOrdered s → AllOrdered s'
unfolding AllOrdered
Step-AllOrdered {s} (Step.ask_one p m ne w) (e, lt) o = plan_at p _ s (asking e (lt, tt, tt)) o
Step-AllOrdered {s} (Step.ask_dual p m1 m2 ne w) (e, d, lt1, lt2) o =
    plan_at p _ s (asking e (dual_order-Ascending m1 m2 d lt1 lt2)) o
Step-AllOrdered {s} (Step.try p m x want ne w e) c o =
    plan_at p _ s (IsOrdered-take m (s.plan p).held want (wanting s p w o)) o
Step-AllOrdered {s} (Step.fail p m x want ne w e) c o = o
Step-AllOrdered {s} (Step.release p m x ne w h e) c o =
    plan_at p _ s (IsOrdered-give m (s.plan p).held (wanting s p w o)) o

CarefulReach-AllOrdered : {s : Locks} → CarefulReach s → AllOrdered s
unfolding AllOrdered
CarefulReach-AllOrdered CarefulReach.start = λ p. IsOrdered-ask [] tt
CarefulReach-AllOrdered (CarefulReach.more r t c) = Step-AllOrdered t c (CarefulReach-AllOrdered r)

-- The owner of a mutex can go on, or it waits for one above it.
owner-Moves :
    {s : Locks} (n m : ℕ)
    → Reach s
    → AllOrdered s
    → u64_mod ≤ m + n
    → s.owner m ≢ 0
    → (q : ℕ) × (q ≢ 0) × Moves s q
unfolding AllOrdered
owner-Moves {s} zero m r o fuel busy =
    let bound = (o (s.owner m)).bounded m ((Reach-IsOwned r).owned m (s.owner m) busy refl) in
    absurd (omega arith)
owner-Moves {s} (suc n) m r o fuel busy =
    let p = s.owner m in
    let holds = (Reach-IsOwned r).owned m p busy refl in
    elim (List-cases (s.plan p).want) [
      | inl w ↦ (p, busy, Moves.gives m w holds (release_mine p))
      | inr (m', ws, w) ↦
          let next = subst (Ascends m) w ((o p).above m holds) in
          elim (ℕ_discrete (s.owner m') 0) [
            | yes free ↦ (p, busy, Moves.takes m' ws w (try_free p (s.owner m') free))
            | no taken ↦ owner-Moves n m' r o (omega (arith, next.0)) taken
          ]
    ]

-- If each process asks only when it holds nothing, for one mutex or for two different ones by
-- `mutex_acquire_dual`, there is no deadlock: as long as some process waits for a mutex, some process
-- can take the mutex that it waits for or, waiting for none, give back one that it holds.
pub no_deadlock :
    {s : Locks} (p m : ℕ) (want : List ℕ)
    → CarefulReach s
    → p ≢ 0
    → (s.plan p).want ≡ m ∷ want
    → (q : ℕ) × (q ≢ 0) × Moves s q
no_deadlock {s} p m want r ne w = elim (ℕ_discrete (s.owner m) 0) [
  | yes free ↦ (p, ne, Moves.takes m want w (try_free p (s.owner m) free))
  | no taken ↦
      owner-Moves u64_mod m (CarefulReach-Reach r) (CarefulReach-AllOrdered r) (omega arith) taken
]
