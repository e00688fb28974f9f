-- ===== src/Mutex.antt =====
-- Mutexes and spinlocks, kernel/k_mutex.c and kernel/k_spinlock.c. A mutex is the pointer to its
-- owner, 0 for none; the mutexes of the kernel are a function of their addresses. A step relation
-- stands for processes that run at the same time: each step is one atomic operation of one of them.
mod Tests
pub mod Steps
pub mod Progress
pub mod Alone
pub mod Spin
use yomotsu.Base.{
  ℕ, zero, suc, Bool, true, false, ◌&&◌, Option, none, some, List, [], ◌∷◌, ◌==◌, ltb,
  if◌then◌else◌, ◌≢◌, ◌≡◌, ◌<◌, update, occurs, erase,
}

abbrev pub stub_thread : ℕ
stub_thread = 0xffef000000000000

-- `CURRENT_PROCESS` is 0 before the scheduler runs.
pub get_current_proc : ℕ → ℕ
get_current_proc current = if current == 0 then stub_thread else current

-- `atomic_cmpxchg_strong_ptr` of the owner with NULL expected: whether it succeeded, and the owner.
pub mutex_try_acquire : ℕ → ℕ → Bool × ℕ
mutex_try_acquire proc owner = if owner == 0 then (true, proc) else (false, owner)

-- `atomic_xchg_ptr`, then VERIFY; `none` is the PANIC.
pub mutex_release : ℕ → ℕ → Option ℕ
mutex_release proc owner = if owner == proc then some 0 else none

-- The order in which `mutex_acquire_dual` takes two mutexes.
pub dual_order : ℕ → ℕ → List ℕ
dual_order m1 m2 = if ltb m1 m2 then m1 ∷ m2 ∷ [] else m2 ∷ m1 ∷ []

-- The order in which `mutex_release_dual` gives them back.
pub dual_release : ℕ → ℕ → List ℕ
dual_release m1 m2 = if ltb m1 m2 then m2 ∷ m1 ∷ [] else m1 ∷ m2 ∷ []

-- `mutex_acquire` with nobody else running: at most `n` tries. `none` is that it still tries.
pub mutex_acquire : ℕ → ℕ → ℕ → Option ℕ
mutex_acquire zero proc owner = none
mutex_acquire (suc n) proc owner =
    let rest = mutex_acquire n proc owner in
    let (success, owner') = mutex_try_acquire proc owner in if success then some owner' else rest

-- One after the other.
pub acquire_all : ℕ → ℕ → List ℕ → (ℕ → ℕ) → Option (ℕ → ℕ)
unfolding mutex_acquire
acquire_all n proc [] owners = some owners
acquire_all n proc (m ∷ ms) owners = elim (mutex_acquire n proc (owners m)) [
  | none ↦ none
  | some owner ↦ acquire_all n proc ms (update owners m owner)
]

pub release_all : ℕ → List ℕ → (ℕ → ℕ) → Option (ℕ → ℕ)
unfolding mutex_release
release_all proc [] owners = some owners
release_all proc (m ∷ ms) owners = elim (mutex_release proc (owners m)) [
  | none ↦ none
  | some owner ↦ release_all proc ms (update owners m owner)
]

pub mutex_acquire_dual : ℕ → ℕ → ℕ → ℕ → (ℕ → ℕ) → Option (ℕ → ℕ)
unfolding acquire_all dual_order
mutex_acquire_dual n proc m1 m2 owners = acquire_all n proc (dual_order m1 m2) owners

pub mutex_release_dual : ℕ → ℕ → ℕ → (ℕ → ℕ) → Option (ℕ → ℕ)
unfolding release_all dual_release
mutex_release_dual proc m1 m2 owners = release_all proc (dual_release m1 m2) owners

-- Where a process is: the mutexes that it holds, and those that it has still to take in the call of
-- `mutex_acquire` or `mutex_acquire_dual` that it is in.
pub record Plan : Type 0 where
  pub held : List ℕ
  pub want : List ℕ

pub record Locks : Type 0 where
  pub owner : ℕ → ℕ
  pub plan : ℕ → Plan

abbrev pub with_plan : ℕ → List ℕ → List ℕ → Locks → Locks
with_plan p held want s = record s { plan = update s.plan p (record { held = held; want = want }) }

abbrev pub with_owner : ℕ → ℕ → Locks → Locks
with_owner m o s = record s { owner = update s.owner m o }

-- One atomic operation of one process. A process may ask for mutexes whatever it holds, and gives
-- them back in any order.
pub data Step (s : Locks) : Locks → Type 0 where
  ask_one :
      (p m : ℕ) → p ≢ 0 → (s.plan p).want ≡ [] → Step s (with_plan p (s.plan p).held (m ∷ []) s)
  ask_dual :
      (p m1 m2 : ℕ)
      → p ≢ 0
      → (s.plan p).want ≡ []
      → Step s (with_plan p (s.plan p).held (dual_order m1 m2) s)
  try :
      (p m o : ℕ) (want : List ℕ)
      → p ≢ 0
      → (s.plan p).want ≡ m ∷ want
      → mutex_try_acquire p (s.owner m) ≡ (true, o)
      → Step s (with_owner m o (with_plan p (m ∷ (s.plan p).held) want s))
  fail :
      (p m o : ℕ) (want : List ℕ)
      → p ≢ 0
      → (s.plan p).want ≡ m ∷ want
      → mutex_try_acquire p (s.owner m) ≡ (false, o)
      → Step s (with_owner m o s)
  release :
      (p m o : ℕ)
      → p ≢ 0
      → (s.plan p).want ≡ []
      → 0 < occurs m (s.plan p).held
      → mutex_release p (s.owner m) ≡ some o
      → Step s (with_owner m o (with_plan p (erase m (s.plan p).held) [] s))

abbrev pub all_free : Locks
all_free = record { owner = λ m. 0; plan = λ p. record { held = []; want = [] } }

pub data Reach : Locks → Type 0 where
  start : Reach all_free
  more : {s s' : Locks} → Reach s → Step s s' → Reach s'

-- `spinlock_t`; `owner` is a number of a processor.
pub record Spinlock : Type 0 where
  pub locked : Bool
  pub owner : ℕ

-- `spinlock_init` clears as many bytes as a pointer has: `locked`, and not the whole of `owner`.
pub spinlock_init : ℕ → Spinlock → Spinlock
spinlock_init rest lock = record { locked = false; owner = rest }

-- A processor's lock and its interrupt flag.
pub record Local : Type 0 where
  pub lock : Spinlock
  pub enabled : Bool

-- The result, the saved flag, and what the processor then has.
pub spinlock_try_lock : ℕ → Local → Bool × Bool × Local
spinlock_try_lock cpu s =
    let flag = s.enabled in
    if s.lock.locked
    then (false, flag, record s { enabled = flag })
    else (true, flag, record { lock = record { locked = true; owner = cpu }; enabled = false })

-- With nobody else running: at most `n` tries; `none` is that it still spins, interrupts disabled.
pub spinlock_lock : ℕ → ℕ → Local → Option (Bool × Local)
spinlock_lock zero cpu s = none
spinlock_lock (suc n) cpu s =
    let rest = spinlock_lock n cpu s in
    if s.lock.locked
    then rest
    else some (s.enabled, record { lock = record { locked = true; owner = cpu }; enabled = false })

-- `none` is the PANIC of one of the two VERIFYs.
pub spinlock_unlock : ℕ → Bool → Local → Option Local
spinlock_unlock cpu flag s =
    if s.lock.locked && (s.lock.owner == cpu)
    then some (record { lock = record s.lock { locked = false }; enabled = flag })
    else none
