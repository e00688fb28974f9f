-- ===== src/Mutex/Steps.antt =====
-- Processes that take and give back the mutexes of kernel/k_mutex.c at the same time: no mutex is
-- held by two, and no one gives back what it does not own.
use yomotsu.Base.{
  ℕ, ◌+◌, ◌≤◌, ◌<◌, ◌≡◌, ◌≢◌, ◌⊎◌, inl, inr, refl, true, false, none, some, List, [], ◌∷◌, arith,
  ◌==◌, if◌then◌else◌, ◌∙◌, sym, subst, update_same, occurs, erase, occurs-erase, occurs-nil,
  occurs-cons, ℕ_discrete, Bool-cases,
}
use yomotsu.Mutex.{
  Locks, Step, Reach, mutex_try_acquire, mutex_release, dual_order, all_free, with_plan, with_owner,
}

-- The owner of each mutex is the one process that holds it, and that holds it once.
pub record IsOwned (s : Locks) : Type 0 where
  pub owned : (m p : ℕ) → p ≢ 0 → s.owner m ≡ p → 0 < occurs m (s.plan p).held
  pub held : (m p : ℕ) → 0 < occurs m (s.plan p).held → (s.owner m ≡ p) × (p ≢ 0)
  pub once : (m p : ℕ) → occurs m (s.plan p).held ≤ 1

IsOwned-start : IsOwned all_free
IsOwned-start = record {
  owned = λ m p ne e. absurd (ne (sym e));
  held = λ m p h. absurd (omega (arith, occurs-nil m));
  once = λ m p. omega (arith, occurs-nil m);
}

-- What a process holds, once the plan of `p` is set.
held-with_plan :
    (m p q : ℕ) (held want : List ℕ) (s : Locks)
    → occurs m ((with_plan p held want s).plan q).held
      ≡ (if q == p then occurs m held else occurs m (s.plan q).held)
held-with_plan m p q held want s = elim (Bool-cases (q == p)) [
  | inl e ↦ rw e refl
  | inr e ↦ rw e refl
]

held-ask :
    (m p q : ℕ) (want : List ℕ) (s : Locks)
    → occurs m ((with_plan p (s.plan p).held want s).plan q).held ≡ occurs m (s.plan q).held
held-ask m p q want s =
    held-with_plan m p q (s.plan p).held want s
    ∙ elim (ℕ_discrete q p) [ yes e ↦ rw e (ground arith) | no ne ↦ ground arith ]

IsOwned-ask :
    {s : Locks} (p : ℕ) (want : List ℕ) → IsOwned s → IsOwned (with_plan p (s.plan p).held want s)
IsOwned-ask {s} p want i = record {
  owned = λ m q ne e. rw (held-ask m p q want s) (i.owned m q ne e);
  held = λ m q h. i.held m q (subst (λ n. 0 < n) (held-ask m p q want s) h);
  once = λ m q. rw (held-ask m p q want s) (i.once m q);
}

-- `p` takes the mutex `m`, which is free.
module _ (s : Locks) (p m : ℕ) (want : List ℕ) (i : IsOwned s) (p_ne : p ≢ 0)
    (free : s.owner m ≡ 0) where
  taken : Locks
  taken = with_owner m p (with_plan p (m ∷ (s.plan p).held) want s)

  held-taken :
      (m' q : ℕ)
      → occurs m' (taken.plan q).held ≡ (
          if q == p
          then (if m == m' then occurs m' (s.plan q).held + 1 else occurs m' (s.plan q).held)
          else occurs m' (s.plan q).held)
  unfolding taken
  held-taken m' q = held-with_plan m' p q (m ∷ (s.plan p).held) want s ∙ elim (ℕ_discrete q p) [
    | yes e ↦ rw (e, occurs-cons m' m (s.plan p).held) (ground arith)
    | no ne ↦ ground arith
  ]

  none_holds : (q : ℕ) → occurs m (s.plan q).held ≡ 0
  none_holds q = elim (ℕ_discrete (occurs m (s.plan q).held) 0) [
    | yes e ↦ e
    | no ne ↦ let was = i.held m q (omega arith) in absurd (was.1 (sym was.0 ∙ free))
  ]

  owner-taken : (m' : ℕ) → taken.owner m' ≡ (if m' == m then p else s.owner m')
  unfolding taken
  owner-taken m' = refl

  IsOwned-take : IsOwned taken
  IsOwned-take = record {
    owned = λ m' q ne e.
        let was = i.owned m' q ne in
        let count = held-taken m' q in let own = owner-taken m' in ground arith;
    held = λ m' q h.
        let was = i.held m' q in
        let count = held-taken m' q in
        let own = owner-taken m' in let none = none_holds q in ground arith;
    once = λ m' q.
        let was = i.once m' q in
        let count = held-taken m' q in let none = none_holds q in ground arith;
  }

-- `p` gives back the mutex `m`, which it holds.
module _ (s : Locks) (p m : ℕ) (want : List ℕ) (i : IsOwned s)
    (mine : 0 < occurs m (s.plan p).held) where
  given : Locks
  given = with_owner m 0 (with_plan p (erase m (s.plan p).held) want s)

  held-given :
      (m' q : ℕ)
      → occurs m' (given.plan q).held ≡ (
          if q == p
          then (if m' == m then 0 else occurs m' (s.plan q).held)
          else occurs m' (s.plan q).held)
  unfolding given
  held-given m' q = held-with_plan m' p q (erase m (s.plan p).held) want s ∙ elim (ℕ_discrete q p) [
    | yes e ↦ rw (e, occurs-erase m' m (s.plan p).held) (ground arith)
    | no ne ↦ ground arith
  ]

  owner-given : (m' : ℕ) → given.owner m' ≡ (if m' == m then 0 else s.owner m')
  unfolding given
  owner-given m' = refl

  only_mine : (q : ℕ) → q ≢ p → occurs m (s.plan q).held ≡ 0
  only_mine q ne = elim (ℕ_discrete (occurs m (s.plan q).held) 0) [
    | yes e ↦ e
    | no some_held ↦
        let theirs = i.held m q (omega arith) in absurd (ne (sym theirs.0 ∙ (i.held m p mine).0))
  ]

  IsOwned-give : IsOwned given
  IsOwned-give = record {
    owned = λ m' q ne e.
        let was = i.owned m' q ne in
        let count = held-given m' q in
        let own = owner-given m' in let mine_too = i.held m p mine in ground arith;
    held = λ m' q h.
        let was = i.held m' q in
        let count = held-given m' q in
        let own = owner-given m' in let none = only_mine q in ground arith;
    once = λ m' q. let was = i.once m' q in let count = held-given m' q in ground arith;
  }

pub try_won : (p w o : ℕ) → mutex_try_acquire p w ≡ (true, o) → (w ≡ 0) × (p ≡ o)
unfolding mutex_try_acquire
try_won p w o e = ground arith

try_lost : (p w o : ℕ) → mutex_try_acquire p w ≡ (false, o) → w ≡ o
unfolding mutex_try_acquire
try_lost p w o e = ground arith

release_done : (p w o : ℕ) → mutex_release p w ≡ some o → 0 ≡ o
unfolding mutex_release
release_done p w o e = ground arith

Step-IsOwned : {s s' : Locks} → IsOwned s → Step s s' → IsOwned s'
unfolding taken given
Step-IsOwned i (Step.ask_one p m ne w) = IsOwned-ask p (m ∷ []) i
Step-IsOwned i (Step.ask_dual p m1 m2 ne w) = IsOwned-ask p (dual_order m1 m2) i
Step-IsOwned {s} i (Step.try p m o want ne w e) =
    let won = try_won p (s.owner m) o e in
    subst (λ x. IsOwned (with_owner m x (with_plan p (m ∷ (s.plan p).held) want s))) won.1
      (IsOwned-take s p m want i ne won.0)
Step-IsOwned {s} i (Step.fail p m o want ne w e) =
    let same = update_same s.owner m o (try_lost p (s.owner m) o e) in
    subst (λ f. IsOwned (record s { owner = f })) (sym same) i
Step-IsOwned {s} i (Step.release p m o ne w mine e) =
    subst (λ x. IsOwned (with_owner m x (with_plan p (erase m (s.plan p).held) [] s)))
      (release_done p (s.owner m) o e) (IsOwned-give s p m [] i mine)

pub Reach-IsOwned : {s : Locks} → Reach s → IsOwned s
Reach-IsOwned Reach.start = IsOwned-start
Reach-IsOwned (Reach.more r t) = Step-IsOwned (Reach-IsOwned r) t

-- However the processes' steps are mixed, no mutex is held by two of them, and none twice by one.
pub mutex_excludes :
    {s : Locks} (m p q : ℕ)
    → Reach s
    → 0 < occurs m (s.plan p).held
    → 0 < occurs m (s.plan q).held
    → (p ≡ q) × (occurs m (s.plan p).held ≡ 1) × (s.owner m ≡ p)
mutex_excludes m p q r hp hq =
    let i = Reach-IsOwned r in
    let mine = i.held m p hp in
    let theirs = i.held m q hq in
    let one = i.once m p in (sym mine.0 ∙ theirs.0, omega arith, mine.0)

-- In any state that is reached, `mutex_release` does not panic for a mutex that the process holds,
-- and panics for any other.
pub mutex_release-held :
    {s : Locks} (m p : ℕ)
    → Reach s
    → p ≢ 0
    → ((0 < occurs m (s.plan p).held) × (mutex_release p (s.owner m) ≡ some 0))
      ⊎ ((occurs m (s.plan p).held ≡ 0) × (mutex_release p (s.owner m) ≡ none))
unfolding mutex_release
mutex_release-held {s} m p r ne =
    let i = Reach-IsOwned r in
    elim (ℕ_discrete (s.owner m) p) [
      | yes e ↦ inl (i.owned m p ne e, ground arith)
      | no d ↦ inr (
        elim (ℕ_discrete (occurs m (s.plan p).held) 0) [
          | yes z ↦ z
          | no nz ↦ absurd (d (i.held m p (omega arith)).0)
        ],
        ground arith,
      )
    ]
