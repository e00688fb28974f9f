-- ===== src/Lib.antt =====
-- The Yomotsu kernel and its C library: models of their parts and proofs about them.
--
-- The parts, and how they interact. The kernel is driven by system calls and interrupts. Each CPU
-- has a run queue of 64 levels (the scheduler), a heap of timeouts, which calls the scheduler's tick,
-- a table of interrupt handlers and a stack of deferred calls. A process that waits does so on a
-- futex, a queue in a hash table, which takes it from the scheduler and gives it back. Memory comes
-- as frames of 2 MB, counted by a byte each, and as chunks of the kernel heap, which grows by
-- frames. Page tables, each in a frame of its own, lead from addresses to frames; the kernel reads and
-- writes a user's memory through them. Locks are mutexes, which many processes take at once, and
-- spinlocks. A process has an identifier from a bitmap and a table of objects; it finds the ports of
-- others by name in a hash table. Programs are linked with a C library.
--
-- Which file models which part (functions keep their names, less leading underscores; a helper by
-- clauses stands for a loop or a branch of the function that it is named after or placed before):
--   Sched        kernel/k_sched.c, kernel/k_sched.h. The global `queue` and the `sched_data` of each
--                process are functions in the record Sched; `sched_tick` and `sched_resched` return
--                what is left to do, a switch of context or nothing. Sched/Pick: which process and
--                which CPU is chosen; Sched/Blocking: a process that blocks; Sched/Placed: where a
--                process stands, over all sequences of calls.
--   Level        the classes, levels and quanta of the same files. Level/Policy: what they come to.
--   KernelHeap   the kernel heap of kernel/k_memory.c (`kmem_*`). The list of chunks
--                carries the address of each chunk. KernelHeap/Tiling: the invariant; Allocate,
--                Merging, Freeing and Aligned: the operations on it; Masks and On32: alignment as a
--                mask, and where blocks start; Lifetime: any sequence of calls.
--   Frames       the frames of kernel/k_memory.c (`pma_*`). Frames/Range: operations on a range;
--                Single: one frame; Run: consecutive frames.
--   Paging       the page tables of kernel/k_memory.c (`vm_*`). Paging/Tree: which table stands where;
--                Leaf and Write: the entry behind a page, and what a write to a table does to it;
--                Mapping: `vm_map_page` as a change of the map from pages to entries; Translate:
--                addresses through the tables; Spare: that the mapping returns; Teardown and its child
--                Frees: an address space taken apart. Paging/Kernel: the search for free addresses, the
--                loops over pages and the kernel's lock, in Kernel/Search, Kernel/Unmap and Kernel/Pages.
--   UserMemory   kernel/k_user_mem.c over Paging, KString and Mutex. UserMemory/Check: which pages are
--                looked at; Locked: the mutexes around an access; Transfer: read and write; Copy: from
--                one address space to another.
--   Mutex        kernel/k_mutex.c and kernel/k_spinlock.c. Mutex/Steps: processes that run at the same
--                time, and mutual exclusion; Progress: no deadlock; Alone: one process; Spin: spinlocks.
--   PortHash     the hash table of kernel/k_port.c over KString. PortHash/Lookup: what a lookup reads;
--                Insert, Remove and Rehash: the operations.
--   Futex        kernel/k_futex.c over the model of the scheduler. Futex/Wake, Wait, Hash, and Counted
--                for the invariant over all sequences of calls.
--   Pid          the bitmap of identifiers of kernel/k_proc.c.
--   Timer        the heap of timeouts of kernel/k_timer.c. Timer/Order: the order, and what a heap
--                holds; Insert and Extract: the two operations.
--   Interrupts   kernel/k_int.c: the descriptor table, the handlers, the deferred calls.
--   KString      kernel/k_string.c over a memory of bytes. KString/Texts: what a string is to its readers.
--   CString      osrt/c/string.c over the same memory. CString/Copy and Move: blocks; Strings: copies and
--                scans; Spans and Sets: the functions that look for chars of a set.
--   ExitTable    the exit functions of osrt/c/stdlib.c.
--   Kobject      the object table of kernel/k_kobj.c.
--   Base         what these share: names of the libraries, Boolean tests, lists, machine words.
-- A module Tests below each part runs it at concrete states.
--
-- How the code is read. `uint`, `size_t`, `uintptr` and `boolean` are words of 64 bits; sums and
-- differences that may wrap around are written `add_u64` and `sub_u64`. The build does not define
-- `_KDEBUG`, so an ASSERT does nothing; a VERIFY that fails and a PANIC are `none` or a case of
-- their own. A function that holds a lock throughout is one atomic step. A pointer is an address or
-- an index; memory is a function. What the code gets from elsewhere is an argument: the memory that
-- an allocator returns, the translation of a user address, the addresses of stubs in assembly.
--
-- Fuel. `sift_up` and `sift_down` of Timer halve and double an index, so the index, or the number of
-- slots, is enough fuel; the theorems about them show that it is. `vm_alloc_vaddr` has 2 ^ 44 rounds,
-- one for each page of the 64-bit addresses and more, and the loops over a range of bytes one for each
-- page that the range can meet; the theorems show that they never run out. `mutex_acquire` and
-- `spinlock_lock` with nobody else running, and what calls them, take a number of tries, and the
-- theorems are about every number. `memmove` has a round for each byte and one more, which its theorem
-- shows to be enough. Every other loop has its number of rounds from the code.
--
-- What is not modelled. The creation and cloning of address spaces, the requests and responses of
-- ports, system calls, processes, the ACPI tables, the program loader, and strtok, strrchr and the
-- messages of errors in osrt/c/string.c are left for later. memcmp runs `repne movsb`, which has no
-- documented effect, so it and what compares with it are out too. The console, the panic screen,
-- the start of the machine and the calibration of its timers are port and register access with no
-- outcome that the code computes. osrt/c/dlmalloc.c and osrt/c/vfprintf.c are other projects' code.
-- The part of an operation that arms a timer or switches the context is not in the model of the
-- operation.
pub mod Base
pub mod Level
pub mod Sched
pub mod KernelHeap
pub mod Frames
pub mod Futex
pub mod Pid
pub mod Timer
pub mod Interrupts
pub mod KString
pub mod ExitTable
pub mod Kobject
pub mod Paging
pub mod Mutex
pub mod UserMemory
pub mod PortHash
pub mod CString
