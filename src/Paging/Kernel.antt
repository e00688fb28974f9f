-- ===== src/Paging/Kernel.antt =====
-- The kernel's own pages, kernel/k_memory.c: `vm_alloc_vaddr`, `vm_unmap_n`, `vm_kern_map_page` and
-- `vm_kern_alloc_anywhere`. The null address space is the table `root` that is in use.
pub mod Search
pub mod Pages
pub mod Unmap
use yomotsu.Base.{
  ℕ, zero, suc, ◌+◌, ◌-◌, ◌*◌, ◌/◌, ◌%◌, ◌^◌, Bool, true, false, not, ◌&&◌, ◌||◌, Option, none,
  some, leb, ltb, ◌==◌, if◌then◌else◌, add_u64, sub_u64,
}
use yomotsu.Frames.{Frames, Alloc, page_size, div_ceil, pma_alloc, pma_free}
use yomotsu.Paging.{Attr, Entry, Memory, Mapped, vm_is_mapped, vm_map_page, vm_unmap_page}

-- What the inner loop of `vm_alloc_vaddr` comes to: it is not over after the rounds that it was given,
-- no page is mapped, or the page of `q` is.
pub data Scan : Type 0 where
  unfinished all_free : Scan
  mapped_at : ℕ → Scan

-- `for (q = p; q < p + size; q += KMEM_PAGE_SIZE)`, up to `limit`.
unfoldable pub scan : ℕ → ℕ → ℕ → ℕ → (ℕ → ℕ → Entry) → Scan
scan zero root q limit tables = Scan.unfinished
scan (suc n) root q limit tables =
    let rest = scan n root (add_u64 q page_size) limit tables in
    if ltb q limit
    then (if vm_is_mapped root q tables then Scan.mapped_at q else rest)
    else Scan.all_free

-- What `vm_alloc_vaddr` comes to; `null` is the null pointer that it returns.
pub data Found : Type 0 where
  unfinished null : Found
  at : ℕ → Found

-- The step that follows a scan from `p`: `rest` goes on from an address.
after_scan : ℕ → (ℕ → Found) → Scan → Found
after_scan p rest Scan.unfinished = Found.unfinished
after_scan p rest Scan.all_free = Found.at p
after_scan p rest (Scan.mapped_at q) = rest q

-- `while (p < (byte *)vaddr_end - size)`, with `limit` for `vaddr_end - size`.
unfoldable pub search : ℕ → ℕ → ℕ → ℕ → ℕ → (ℕ → ℕ → Entry) → Found
unfolding scan after_scan
search zero root p limit size tables = Found.unfinished
search (suc n) root p limit size tables =
    let skip = search n root (add_u64 p page_size) limit size tables in
    let free =
      after_scan p (λ q. search n root q limit size tables)
        (scan (size / page_size + 2) root p (add_u64 p size) tables) in
    if ltb p limit then (if vm_is_mapped root p tables then skip else free) else Found.null

-- Every address is below 2 ^ 64, so that this many rounds are enough.
abbrev pub rounds : ℕ
rounds = 2 ^ 44

unfoldable pub vm_alloc_vaddr : ℕ → ℕ → ℕ → ℕ → (ℕ → ℕ → Entry) → Found
unfolding search
vm_alloc_vaddr root begin end size tables = search rounds root begin (sub_u64 end size) size tables

-- `KERNEL_VADDR_BEGIN` and `KERNEL_VADDR_END`
abbrev pub kernel_begin : ℕ
kernel_begin = 0xffffffff80000000

abbrev pub kernel_end : ℕ
kernel_end = 0xffffffffffffffff

-- The attributes of a page of the kernel.
abbrev pub kernel_attr : Attr
kernel_attr = record {
  present = false;
  writable = true;
  privileged = true;
  executable = true;
  global = true;
}

unlock : Mapped → Mapped
unlock Mapped.blocked = Mapped.blocked
unlock Mapped.panicked = Mapped.panicked
unlock (Mapped.null m) = Mapped.null (record m { kern_lock = false })
unlock (Mapped.mapped m) = Mapped.mapped (record m { kern_lock = false })

-- It waits for ever for a lock that is held: only the caller runs, and if it is the caller's own, no
-- one releases it.
pub vm_kern_map_page : ℕ → ℕ → ℕ → Memory → Mapped
unfolding unlock
vm_kern_map_page root vma pma m =
    if m.kern_lock
    then Mapped.blocked
    else unlock (vm_map_page root vma pma kernel_attr (record m { kern_lock = true }))

-- What `vm_unmap_n` comes to; a panic leaves the memory as it then is.
pub data Unmapped : Type 0 where
  unfinished : Unmapped
  panicked done : Memory → Unmapped

-- `for (p = begin; p < end; p += KMEM_PAGE_SIZE)`
pub unmap_from : ℕ → ℕ → ℕ → ℕ → Memory → Unmapped
unmap_from zero root p end m = Unmapped.unfinished
unmap_from (suc n) root p end m =
    if ltb p end
    then elim (vm_unmap_page root p m) [
      | none ↦ Unmapped.panicked m
      | some (pma, m') ↦ unmap_from n root (add_u64 p page_size) end m'
    ]
    else Unmapped.done m

pub vm_unmap_n : ℕ → ℕ → ℕ → Memory → Unmapped
unfolding unmap_from
vm_unmap_n root vma size m =
    if size == 0
    then Unmapped.done m
    else unmap_from (size / page_size + 3) root (vma / page_size * page_size) (add_u64 vma size) m

-- What `vm_kern_alloc_anywhere` comes to; `null` is the null pointer that it returns.
pub data Anywhere : Type 0 where
  unfinished blocked panicked : Anywhere
  null : Memory → Anywhere
  at : ℕ → Memory → Anywhere

-- `for (rp = ret; rp < vma; rp += KMEM_PAGE_SIZE)`, behind the label `rollback`.
give_back : ℕ → ℕ → ℕ → Memory → Anywhere
give_back zero root rp m = Anywhere.null (record m { kern_lock = false })
give_back (suc n) root rp m = elim (vm_unmap_page root rp m) [
  | none ↦ Anywhere.panicked
  | some (pma, m') ↦
      give_back n root (add_u64 rp page_size)
        (record m' { frames = pma_free pma page_size m'.frames })
]

-- What follows `vm_kern_map_page`; `rest` is the next round.
after_map : ℕ → ℕ → ℕ → (Memory → Anywhere) → Mapped → Anywhere
unfolding give_back
after_map i root ret rest Mapped.blocked = Anywhere.blocked
after_map i root ret rest Mapped.panicked = Anywhere.panicked
after_map i root ret rest (Mapped.null m) = give_back i root ret m
after_map i root ret rest (Mapped.mapped m) = rest m

after_alloc : ℕ → ℕ → ℕ → ℕ → Memory → (Memory → Anywhere) → Alloc → Anywhere
unfolding after_map vm_kern_map_page give_back
after_alloc i root ret vma m rest Alloc.blocked = Anywhere.blocked
after_alloc i root ret vma m rest (Alloc.returned pma frames) =
    if pma == 0
    then give_back i root ret (record m { frames = frames })
    else after_map i root ret rest (vm_kern_map_page root vma pma (record m { frames = frames }))

-- The loop over the pages, `i` of which are mapped and `n` are not.
alloc_pages : ℕ → ℕ → ℕ → ℕ → ℕ → Memory → Anywhere
unfolding after_alloc
alloc_pages zero i root ret vma m = Anywhere.at ret (record m { kern_lock = false })
alloc_pages (suc n) i root ret vma m =
    after_alloc i root ret vma m (λ m'. alloc_pages n (i + 1) root ret (add_u64 vma page_size) m')
      (pma_alloc m.frames)

alloc_at : ℕ → ℕ → Memory → Found → Anywhere
unfolding alloc_pages
alloc_at n root m Found.unfinished = Anywhere.unfinished
alloc_at n root m Found.null = Anywhere.null (record m { kern_lock = false })
alloc_at n root m (Found.at vma) = alloc_pages n 0 root vma vma m

pub vm_kern_alloc_anywhere : ℕ → ℕ → Memory → Anywhere
unfolding alloc_at vm_alloc_vaddr
vm_kern_alloc_anywhere root size m =
    if m.kern_lock
    then Anywhere.blocked
    else alloc_at (div_ceil size page_size) root (record m { kern_lock = true })
        (vm_alloc_vaddr root kernel_begin kernel_end size m.tables)
