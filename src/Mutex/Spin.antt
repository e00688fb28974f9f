-- ===== src/Mutex/Spin.antt =====
-- Spinlocks, kernel/k_spinlock.c: taking and giving back, and the interrupt flag.
use yomotsu.Base.{
  ℕ, zero, suc, ◌≡◌, ◌≢◌, ◌⊎◌, inl, inr, refl, true, false, none, some, arith, Bool-cases,
}
use yomotsu.Mutex.{Local, spinlock_try_lock, spinlock_lock, spinlock_unlock}

lock_free :
    (n cpu : ℕ) (s : Local)
    → s.lock.locked ≡ false
    → spinlock_lock (suc n) cpu s
      ≡ some (s.enabled, record { lock = record { locked = true; owner = cpu }; enabled = false })
unfolding spinlock_lock
lock_free n cpu s e = rw e refl

lock_taken : (n cpu : ℕ) (s : Local) → s.lock.locked ≡ true → spinlock_lock n cpu s ≡ none
unfolding spinlock_lock
lock_taken zero cpu s e = refl
lock_taken (suc n) cpu s e = let rest = lock_taken n cpu s e in ground arith

-- A spinlock that is free is taken at once, interrupts being disabled while it is held, and
-- `spinlock_unlock` of the same processor brings back the interrupt flag and leaves the lock free;
-- another processor's panics. `spinlock_try_lock` does the same, and of a lock that is held it
-- changes nothing, where `spinlock_lock` spins on.
pub spinlock_lem :
    (n cpu other : ℕ) (s : Local)
    → cpu ≢ other
    → ((s.lock.locked ≡ false)
        × ((s' : Local) × (spinlock_lock (suc n) cpu s ≡ some (s.enabled, s'))
            × (spinlock_try_lock cpu s ≡ (true, s.enabled, s'))
            × (s'.enabled ≡ false)
            × (spinlock_unlock other s.enabled s' ≡ none)
            × (spinlock_unlock cpu s.enabled s'
                ≡ some (record s { lock = record { locked = false; owner = cpu } }))))
      ⊎ ((s.lock.locked ≡ true)
          × (spinlock_try_lock cpu s ≡ (false, s.enabled, s))
          × ((k : ℕ) → spinlock_lock k cpu s ≡ none))
unfolding spinlock_try_lock spinlock_unlock
spinlock_lem n cpu other s ne = elim (Bool-cases s.lock.locked) [
  | inl e ↦ inr (e, rw e refl, λ k. lock_taken k cpu s e)
  | inr e ↦ inl (
    e,
    (
      record { lock = record { locked = true; owner = cpu }; enabled = false },
      lock_free n cpu s e,
      rw e refl,
      refl,
      ground arith,
      ground arith,
    ),
  )
]
