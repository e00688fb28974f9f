-- ===== src/Futex.antt =====
-- Futexes, kernel/k_futex.c: wait queues in a hash table, over the scheduler. A bucket's list is
-- the list of its entries, the one inserted last first. The spinlock of a bucket is held from the
-- test of the futex word to the end of the change, so a call is one atomic step up to the call of
-- `sched_resched`. What `user_memory_check_read` and `vm_get_pma_by_vma` say of a user address is
-- an argument: the physical address, or `none` if the address cannot be read.

mod Tests
pub mod Wake
pub mod Hash
pub mod Wait
pub mod Counted
use yomotsu.Base.{
  ℕ, zero, suc, ◌+◌, ◌-◌, ◌*◌, ◌/◌, ◌%◌, ◌^◌, Bool, true, false, ◌||◌, Option, none, some, List, [],
  ◌∷◌, ◌==◌, if◌then◌else◌, update, add_u64, sub_u64,
}
use yomotsu.Sched.{Sched, Outcome, sched_set_ready, sched_set_blocking, sched_resched}
use yomotsu.Paging.{pm_map_base}

-- `enum PROCESS_STATE` of kernel/k_proc.h
pub data ProcState : Type 0 where
  ready blocked exited : ProcState

-- `futex_entry_t`, less its list node.
pub record Entry : Type 0 where
  pub addr : ℕ
  pub proc : ℕ

-- `futex_bucket_t`, less its lock.
pub record Bucket : Type 0 where
  pub entries : List Entry
  pub waiters : ℕ

-- `futex_size` and `futex_hash`, and what the functions here read and change of the rest of the
-- kernel: the state and the terminate flag of each process, the memory by words, the scheduler.
pub record Kernel : Type 0 where
  pub futex_size : ℕ
  pub futex_hash : ℕ → Bucket
  pub state : ℕ → ProcState
  pub terminate_flag : ℕ → Bool
  pub memory : ℕ → ℕ
  pub sched : Sched

pub futex_calc_hash : ℕ → ℕ → ℕ
futex_calc_hash futex_size addr = addr % futex_size

-- `64 - __builtin_clzll(val)`: the number of binary digits.
pub bit_length : ℕ → ℕ → ℕ
bit_length zero val = 0
bit_length (suc n) val = let rest = bit_length n (val / 2) in if val == 0 then 0 else rest + 1

-- The constant 1 that is shifted is an `int`, so this holds up to a shift by 30.
pub round_to_power_of_2 : ℕ → ℕ
round_to_power_of_2 val = if val == 1 then 1 else 2 ^ (bit_length 64 val + 1)

abbrev pub empty_bucket : Bucket
empty_bucket = record { entries = []; waiters = 0 }

pub futex_init : ℕ → Kernel → Kernel
unfolding round_to_power_of_2
futex_init cpu_count k = record k {
  futex_size = round_to_power_of_2 (256 * cpu_count);
  futex_hash = λ _. empty_bucket;
}

-- What a call of a function that may end in `sched_resched` leaves: the kernel, and the process to
-- which the CPU switches, if it does. The whole is `none` on a PANIC of the scheduler.
abbrev pub Resched : Type 0
Resched = Option (Kernel × Option ℕ)

with_outcome : Kernel → Option Outcome → Resched
with_outcome k none = none
with_outcome k (some (Outcome.stay s)) = some (record k { sched = s }, none)
with_outcome k (some (Outcome.switch_to next s)) = some (record k { sched = s }, some next)

pub resched : ℕ → Kernel → Resched
unfolding with_outcome
resched cpu k = with_outcome k (sched_resched cpu k.sched)

pub current_process : ℕ → Kernel → ℕ
current_process cpu k = k.sched.current cpu

with_sched : Kernel → Option Sched → Option Kernel
with_sched k none = none
with_sched k (some s) = some (record k { sched = s })

-- The branch of a wait that blocks: the entry, the state of the process, `sched_set_blocking`.
pub enqueue : ℕ → ℕ → ℕ → Kernel → Option Kernel
unfolding with_sched
enqueue key addr p k =
    let bucket = k.futex_hash key in
    with_sched
      (record k {
        futex_hash = update k.futex_hash key (record {
          entries = record { addr = addr; proc = p } ∷ bucket.entries;
          waiters = add_u64 bucket.waiters 1;
        });
        state = update k.state p ProcState.blocked;
      })
      (sched_set_blocking p k.sched)

-- The other branch: `++bucket->waiters` at the start is taken back.
pub turn_away : ℕ → Kernel → Kernel
turn_away key k =
    let bucket = k.futex_hash key in
    record k {
      futex_hash =
          update k.futex_hash key
            (record bucket { waiters = sub_u64 (add_u64 bucket.waiters 1) 1 });
    }

then_resched : ℕ → Option Kernel → Resched
then_resched cpu none = none
then_resched cpu (some k) = resched cpu k

-- The common part of the two waits: the word at `word` decides.
pub wait_on : ℕ → ℕ → ℕ → ℕ → ℕ → Kernel → Resched
unfolding then_resched
wait_on cpu key addr word val k =
    if k.memory word == val
    then then_resched cpu (enqueue key addr (current_process cpu k) k)
    else some (turn_away key k, none)

pub futex_kwait : ℕ → ℕ → ℕ → Kernel → Resched
futex_kwait cpu addr val k =
    wait_on cpu (futex_calc_hash k.futex_size addr + k.futex_size) addr addr val k

-- `process_terminate` of kernel/k_proc.c
pub process_terminate : ℕ → Kernel → Kernel
process_terminate p k = record k { terminate_flag = update k.terminate_flag p true }

pub futex_wait : ℕ → Option ℕ → ℕ → Kernel → Resched
futex_wait cpu none val k = resched cpu (process_terminate (current_process cpu k) k)
futex_wait cpu (some paddr) val k =
    wait_on cpu (futex_calc_hash k.futex_size paddr) paddr (add_u64 paddr pm_map_base) val k

pub make_ready : ℕ → Kernel → Kernel
make_ready p k = record k {
  state = update k.state p ProcState.ready;
  sched = sched_set_ready p k.sched;
}

-- What the loop of a wake leaves: the entries, the count of waiters, the kernel.
pub record Woken : Type 0 where
  pub entries : List Entry
  pub waiters : ℕ
  pub kernel : Kernel

keep : Entry → Woken → Woken
keep e w = record w { entries = e ∷ w.entries }

pub wake_loop : ℕ → ℕ → ℕ → List Entry → Kernel → Woken
unfolding keep
wake_loop addr count waiters [] k = record { entries = []; waiters = waiters; kernel = k }
wake_loop addr count waiters (e ∷ rest) k =
    let passed = keep e (wake_loop addr count waiters rest k) in
    let count' = sub_u64 count 1 in
    let waiters' = sub_u64 waiters 1 in
    let k' = make_ready e.proc k in
    let further = wake_loop addr count' waiters' rest k' in
    if e.addr == addr
    then (if (waiters' == 0) || (count' == 0)
        then record { entries = rest; waiters = waiters'; kernel = k' }
        else further)
    else passed

-- `__do_futex_wake`
pub do_futex_wake : ℕ → ℕ → ℕ → Kernel → Kernel
unfolding wake_loop
do_futex_wake key addr count k =
    if (k.futex_hash key).waiters == 0
    then k
    else (let w = wake_loop addr count (k.futex_hash key).waiters (k.futex_hash key).entries k in
        record w.kernel {
          futex_hash =
              update w.kernel.futex_hash key (record { entries = w.entries; waiters = w.waiters });
        })

pub futex_kwake : ℕ → ℕ → Kernel → Kernel
futex_kwake addr count k =
    do_futex_wake (futex_calc_hash k.futex_size addr + k.futex_size) addr count k

pub futex_wake : ℕ → Option ℕ → ℕ → Kernel → Kernel
futex_wake cpu none count k = process_terminate (current_process cpu k) k
futex_wake cpu (some paddr) count k =
    do_futex_wake (futex_calc_hash k.futex_size paddr) paddr count k
