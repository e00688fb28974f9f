-- ===== src/UserMemory/Locked.antt =====
-- The mutexes around the accesses of kernel/k_user_mem.c, with nobody else running.
use yomotsu.Base.{ℕ, suc, ◌≡◌, ◌≢◌, ◌⊎◌, inl, inr, refl, some}
use yomotsu.Mutex.Alone.{single_lem, mutex_acquire_dual_lem}
use yomotsu.UserMemory.{Access, Called, give_locks_back, with_mutex, with_mutexes}

-- The call ends with what holds of its access, and unless it faults it leaves every mutex as it was.
abbrev pub Ends : (Access → Type 0) → (ℕ → ℕ) → Called → Type 0
Ends P owner Called.blocked = ⊥
Ends P owner Called.panicked = ⊥
Ends P owner (Called.ended access owner') =
    P access × ((access ≡ Access.faulted) ⊎ ((x : ℕ) → owner' x ≡ owner x))

give_locks_back-Ends :
    (P : Access → Type 0) (owner owner' owner2 : ℕ → ℕ) (access : Access)
    → (P Access.unfinished → ⊥)
    → P access
    → ((x : ℕ) → owner2 x ≡ owner x)
    → Ends P owner (give_locks_back (some owner2) owner' access)
unfolding give_locks_back
give_locks_back-Ends P owner owner' owner2 Access.unfinished over p same = absurd (over p)
give_locks_back-Ends P owner owner' owner2 Access.faulted over p same = (p, inl refl)
give_locks_back-Ends P owner owner' owner2 (Access.refused code) over p same = (p, inr same)
give_locks_back-Ends P owner owner' owner2 (Access.done bytes) over p same = (p, inr same)

pub with_mutex-Ends :
    (P : Access → Type 0) (n proc lock : ℕ) (owner : ℕ → ℕ) (access : Access)
    → owner lock ≡ 0
    → (P Access.unfinished → ⊥)
    → P access
    → Ends P owner (with_mutex (suc n) proc lock owner access)
unfolding with_mutex
with_mutex-Ends P n proc lock owner access free over p =
    let (owner', taken, (owner2, back, same)) = single_lem n proc lock owner free in
    rw (taken, with_mutex, back) (give_locks_back-Ends P owner owner' owner2 access over p same)

-- With two different mutexes the call ends; with one mutex twice it never gets it.
pub with_mutexes-Ends :
    (P : Access → Type 0) (n proc lock1 lock2 : ℕ) (owner : ℕ → ℕ) (access : Access)
    → proc ≢ 0
    → owner lock1 ≡ 0
    → owner lock2 ≡ 0
    → (P Access.unfinished → ⊥)
    → P access
    → ((lock1 ≢ lock2) × Ends P owner (with_mutexes (suc n) proc lock1 lock2 owner access))
      ⊎ ((lock1 ≡ lock2)
          × ((k : ℕ) → with_mutexes k proc lock1 lock2 owner access ≡ Called.blocked))
unfolding with_mutexes
with_mutexes-Ends P n proc lock1 lock2 owner access ne free free' over p =
    elim (mutex_acquire_dual_lem n proc lock1 lock2 owner ne) [
      | inl (_, _, differ, (owner', taken, set, (owner2, back, same))) ↦ inl (
        differ,
        rw (taken, with_mutexes, back)
            (give_locks_back-Ends P owner owner' owner2 access over p same),
      )
      | inr (busy, never) ↦ inr (
        elim busy [
          | inl held ↦ absurd (held free)
          | inr (inl held) ↦ absurd (held free')
          | inr (inr same) ↦ same
        ],
        λ k. rw (never k, with_mutexes) refl,
      )
    ]
