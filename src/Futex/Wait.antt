-- ===== src/Futex/Wait.antt =====
-- What a wait of kernel/k_futex.c does, and that a wake undoes it.
use yomotsu.Base.{
  ℕ, suc, ◌+◌, ◌<◌, ◌≡◌, ◌≢◌, inl, inr, refl, update-update, ap, ◌∙◌, true, some, List, ◌∷◌, arith,
  ◌==◌, update, update_same, length, add_u64, u64_mod, Option-cases,
}
use yomotsu.Sched.{Sched, sched_set_blocking, sched_set_ready}
use yomotsu.Futex.{Entry, Kernel, ProcState, with_sched, enqueue, make_ready, do_futex_wake}
use yomotsu.Level.Policy.{HasRange}
use yomotsu.Sched.Blocking.{set_blocking_succeeds}
use yomotsu.Futex.Wake.{passed_over-zero, chosen-zero, do_futex_wake_lem}

-- The count of waiters of each bucket is the number of its entries.
abbrev pub Counted : Kernel → Type 0
Counted k = (key : ℕ) → (k.futex_hash key).waiters ≡ length (k.futex_hash key).entries

pub enqueue_inv :
    (key addr p : ℕ) (k : Kernel) {k' : Kernel}
    → enqueue key addr p k ≡ some k'
    → (s : Sched) × (sched_set_blocking p k.sched ≡ some s)
      × (k' ≡ record k {
        futex_hash = update k.futex_hash key (record {
          entries = record { addr = addr; proc = p } ∷ (k.futex_hash key).entries;
          waiters = add_u64 (k.futex_hash key).waiters 1;
        });
        state = update k.state p ProcState.blocked;
        sched = s;
      })
unfolding enqueue with_sched
enqueue_inv key addr p k e = elim (Option-cases (sched_set_blocking p k.sched)) [
  | inl n ↦ absurd (ground arith)
  | inr (s, n) ↦ (s, n, ground arith)
]

pub enqueue_succeeds :
    (key addr p : ℕ) (k : Kernel)
    → HasRange (k.sched.proc p).class
    → (k' : Kernel) × (enqueue key addr p k ≡ some k')
unfolding enqueue with_sched
enqueue_succeeds key addr p k h =
    let (s, e) = set_blocking_succeeds p k.sched h in
    elim (Option-cases (enqueue key addr p k)) [ inl n ↦ absurd (ground arith) | inr r ↦ r ]

-- A wake of one process where the first entry is for the address.
wake_first :
    (key addr p : ℕ) (rest : List Entry) (k : Kernel)
    → (k.futex_hash key).entries ≡ record { addr = addr; proc = p } ∷ rest
    → (k.futex_hash key).waiters ≡ suc (length rest)
    → suc (length rest) < u64_mod
    → do_futex_wake key addr 1 k ≡ record (make_ready p k) {
      futex_hash = update k.futex_hash key (record { entries = rest; waiters = length rest });
    }
wake_first key addr p rest k e w h =
    let here : (addr == addr) ≡ true = ground arith in
    do_futex_wake_lem key addr 0 k (omega arith) (rw e w) (omega arith)
    ∙ rw (e, here, passed_over-zero addr rest, chosen-zero addr rest) refl

-- Where the count of waiters of each bucket is the number of its entries, and the bucket's count
-- is below 2 ^ 64 - 1, a process that is enqueued is blocked. The next wake of one process on the
-- address leaves it in the state ready and every other process in the state that it had before the
-- wait, gives it back to the scheduler, and leaves the buckets as they were before the wait.
pub wait_then_wake :
    (key addr p : ℕ) (k k' : Kernel)
    → Counted k
    → (k.futex_hash key).waiters + 1 < u64_mod
    → enqueue key addr p k ≡ some k'
    → (k'.state p ≡ ProcState.blocked)
      × (let k'' = do_futex_wake key addr 1 k' in
          (k''.state p ≡ ProcState.ready)
          × ((q : ℕ) → q ≢ p → k''.state q ≡ k.state q)
          × (k''.sched ≡ sched_set_ready p k'.sched)
          × (k''.futex_hash ≡ k.futex_hash))
unfolding make_ready
wait_then_wake key addr p k k' c h e =
    let (s, blocking, made) = enqueue_inv key addr p k e in
    let rest = (k.futex_hash key).entries in
    let count = c key in
    let here : (key == key) ≡ true = ground arith in
    let hash : update k'.futex_hash key (record { entries = rest; waiters = length rest })
        ≡ k.futex_hash =
      rw made
        (update-update k.futex_hash key _ _ ∙ update_same k.futex_hash key _ (ground arith)) in
    let woken =
      wake_first key addr p rest k' (rw (made, here) refl) (rw (made, here) (omega arith))
        (omega arith)
      ∙ ap (λ h. record (make_ready p k') { futex_hash = h }) hash in
    (
      rw made (ground arith),
      (
        rw woken (ground arith),
        λ q ne. rw (woken, made) (ground arith),
        rw woken refl,
        rw woken refl,
      ),
    )
