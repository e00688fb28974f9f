-- ===== src/UserMemory.antt =====
-- Safe access to a user's memory, kernel/k_user_mem.c, over the page tables, the mutexes and the
-- copies of kernel/k_string.c. The kernel sees all frames from `pm_map_base` on, so a byte of a user is a byte
-- of the kernel's memory at `pm_map_base` and its physical address.
mod Tests
pub mod Check
pub mod Locked
pub mod Transfer
pub mod Copy
use yomotsu.Base.{
  ℕ, zero, suc, ◌+◌, ◌-◌, ◌*◌, ◌/◌, ◌%◌, ◌^◌, Bool, true, false, not, ◌&&◌, ◌||◌, Option, none,
  some, List, [], ◌∷◌, leb, ltb, ◌==◌, if◌then◌else◌, add_u64,
}
use yomotsu.Frames.{page_size}
use yomotsu.Paging.{Attr, Entry, vm_check_attr, vm_get_pma_by_vma, pm_map_base}
use yomotsu.Mutex.{acquire_all, release_all, mutex_acquire_dual, mutex_release_dual}
use yomotsu.KString.{Memory, kmemcpy, kmemmov}

-- The address space of a process: its root table, and the address of its mutex.
pub record AddressSpace : Type 0 where
  pub root : ℕ
  pub lock : ℕ

-- The tables that all address spaces stand in, the bytes that the kernel sees, and the owners of the
-- mutexes.
pub record Machine : Type 0 where
  pub tables : ℕ → ℕ → Entry
  pub bytes : Memory
  pub owner : ℕ → ℕ

abbrev equal : Bool → Bool → Bool
equal a b = if a then b else not b

-- `attr == expected`
abbrev pub same_attr : Attr → Attr → Bool
same_attr a b =
    equal a.present b.present
    && equal a.writable b.writable
    && equal a.privileged b.privileged
    && equal a.executable b.executable
    && equal a.global b.global

-- What a check comes to: not over after the rounds that it was given, a read through the null
-- pointer in `vm_check_attr`, or its answer.
pub data Checked : Type 0 where
  unfinished faulted : Checked
  verdict : Bool → Checked

-- `for (p = vma; p < vma + size; p += KMEM_PAGE_SIZE)`
pub check_pages : ℕ → ℕ → ℕ → ℕ → Attr → Attr → (ℕ → ℕ → Entry) → Checked
check_pages zero root p end asked expected tables = Checked.unfinished
check_pages (suc n) root p end asked expected tables =
    let rest = check_pages n root (add_u64 p page_size) end asked expected tables in
    if ltb p end
    then elim (vm_check_attr root p asked tables) [
      | none ↦ Checked.faulted
      | some attr ↦ if same_attr attr expected then rest else Checked.verdict false
    ]
    else Checked.verdict true

abbrev pub read_asked : Attr
read_asked = record {
  present = true;
  writable = false;
  privileged = true;
  executable = false;
  global = false;
}

abbrev pub read_expected : Attr
read_expected = record read_asked { privileged = false }

abbrev pub write_asked : Attr
write_asked = record read_asked { writable = true }

abbrev pub write_expected : Attr
write_expected = record write_asked { privileged = false }

pub user_memory_check_read : ℕ → ℕ → ℕ → (ℕ → ℕ → Entry) → Checked
unfolding check_pages
user_memory_check_read root vma size tables =
    check_pages (size / page_size + 2) root vma (add_u64 vma size) read_asked read_expected tables

pub user_memory_check_write : ℕ → ℕ → ℕ → (ℕ → ℕ → Entry) → Checked
unfolding check_pages
user_memory_check_write root vma size tables =
    check_pages (size / page_size + 2) root vma (add_u64 vma size) write_asked write_expected tables

-- Where the kernel sees the byte of a user's address.
abbrev pub seen_at : ℕ → ℕ → (ℕ → ℕ → Entry) → ℕ
seen_at root va tables = add_u64 (vm_get_pma_by_vma root va tables) pm_map_base

-- What an access does once it has its locks: its check is not over, it faults in the check, it is
-- refused with the result of the call, or it is done.
pub data Access : Type 0 where
  unfinished faulted : Access
  refused : ℕ → Access
  done : Memory → Access

-- What a call comes to, and the owners of the mutexes that it leaves: it waits for a mutex, it panics
-- in the release of one, or it ends.
pub data Called : Type 0 where
  blocked panicked : Called
  ended : Access → (ℕ → ℕ) → Called

after_check : ℕ → Memory → Checked → Access
after_check code bytes Checked.unfinished = Access.unfinished
after_check code bytes Checked.faulted = Access.faulted
after_check code bytes (Checked.verdict ok) = if ok then Access.done bytes else Access.refused code

-- The releases before each `return`; `released` is what they come to. There is none behind a fault.
pub give_locks_back : Option (ℕ → ℕ) → (ℕ → ℕ) → Access → Called
give_locks_back released owner Access.unfinished = Called.ended Access.unfinished owner
give_locks_back released owner Access.faulted = Called.ended Access.faulted owner
give_locks_back none owner (Access.refused code) = Called.panicked
give_locks_back none owner (Access.done bytes) = Called.panicked
give_locks_back (some owner') owner (Access.refused code) =
    Called.ended (Access.refused code) owner'
give_locks_back (some owner') owner (Access.done bytes) = Called.ended (Access.done bytes) owner'

-- `mutex_acquire(&as->lock)` and `mutex_release(&as->lock)` around an access, with nobody else
-- running; `tries` as in `mutex_acquire`.
pub with_mutex : ℕ → ℕ → ℕ → (ℕ → ℕ) → Access → Called
unfolding give_locks_back
with_mutex tries proc lock owner access = elim (acquire_all tries proc (lock ∷ []) owner) [
  | none ↦ Called.blocked
  | some owner' ↦ give_locks_back (release_all proc (lock ∷ []) owner') owner' access
]

-- The same with `mutex_acquire_dual` and `mutex_release_dual`.
pub with_mutexes : ℕ → ℕ → ℕ → ℕ → (ℕ → ℕ) → Access → Called
unfolding give_locks_back
with_mutexes tries proc lock1 lock2 owner access =
    elim (mutex_acquire_dual tries proc lock1 lock2 owner) [
      | none ↦ Called.blocked
      | some owner' ↦ give_locks_back (mutex_release_dual proc lock1 lock2 owner') owner' access
    ]

pub read_locked : AddressSpace → ℕ → ℕ → ℕ → Machine → Access
unfolding after_check user_memory_check_read
read_locked space dst src size m =
    after_check 0 (kmemcpy dst (seen_at space.root src m.tables) size m.bytes)
      (user_memory_check_read space.root src size m.tables)

-- `dst` is an address of the kernel. The refusal is `B_FALSE`.
pub user_memory_read : ℕ → ℕ → AddressSpace → ℕ → ℕ → ℕ → Machine → Called
user_memory_read tries proc space dst src size m =
    with_mutex tries proc space.lock m.owner (read_locked space dst src size m)

pub write_locked : AddressSpace → ℕ → ℕ → ℕ → Machine → Access
unfolding after_check user_memory_check_write
write_locked space dst src size m =
    after_check 0 (kmemcpy (seen_at space.root dst m.tables) src size m.bytes)
      (user_memory_check_write space.root dst size m.tables)

-- `src` is an address of the kernel.
pub user_memory_write : ℕ → ℕ → AddressSpace → ℕ → ℕ → ℕ → Machine → Called
user_memory_write tries proc space dst src size m =
    with_mutex tries proc space.lock m.owner (write_locked space dst src size m)

copy_checked : AddressSpace → ℕ → AddressSpace → ℕ → ℕ → Machine → Checked → Access
unfolding after_check user_memory_check_write
copy_checked dst_space dst src_space src size m Checked.unfinished = Access.unfinished
copy_checked dst_space dst src_space src size m Checked.faulted = Access.faulted
copy_checked dst_space dst src_space src size m (Checked.verdict false) = Access.refused 1
copy_checked dst_space dst src_space src size m (Checked.verdict true) =
    after_check (2 ^ 64 - 1)
      (kmemmov (seen_at dst_space.root dst m.tables) (seen_at src_space.root src m.tables) size
        m.bytes)
      (user_memory_check_write dst_space.root dst size m.tables)

-- The refusals are 1 for the source and -1 for the destination.
pub user_memory_copy : ℕ → ℕ → AddressSpace → ℕ → AddressSpace → ℕ → ℕ → Machine → Called
unfolding copy_checked user_memory_check_read
user_memory_copy tries proc dst_space dst src_space src size m =
    with_mutexes tries proc src_space.lock dst_space.lock m.owner (
      copy_checked dst_space dst src_space src size m
        (user_memory_check_read src_space.root src size m.tables))
