-- ===== src/Paging.antt =====
-- Page tables, the part "Paging" of kernel/k_memory.c. A table is named by its frame number, which
-- is its physical address shifted by 12, as the `addr` field of an entry holds it; a `pml4_vaddr` or
-- an address space by that of its root. The memory that the tables stand in is a function of the
-- table and the index. A set of attribute bits is the record of its five bits.
mod Tests
pub mod Tree
pub mod Leaf
pub mod Write
pub mod Mapping
pub mod Translate
pub mod Spare
pub mod Teardown
pub mod Kernel
use yomotsu.Base.{
  ℕ, zero, suc, ◌+◌, ◌-◌, ◌*◌, ◌/◌, ◌%◌, ◌^◌, Bool, true, false, not, ◌&&◌, ◌||◌, Option, none,
  some, leb, ltb, ◌==◌, if◌then◌else◌,
}
use yomotsu.Frames.{Frames, Alloc, page_size, pma_alloc, pma_free}

-- `enum VM_PAGE_ATTR`
pub record Attr : Type 0 where
  pub present : Bool
  pub writable : Bool
  pub privileged : Bool
  pub executable : Bool
  pub global : Bool

-- `pml4e_t`, `pdpe_t` and `pde_t`, the fields that the code reads or writes. A set bit `privileged`
-- lets user code in, as it does in the processor's manual, where it is called U/S.
pub record Entry : Type 0 where
  pub present : Bool
  pub rw : Bool
  pub privileged : Bool
  pub page_size : Bool
  pub global : Bool
  pub nx : Bool
  pub addr : ℕ

abbrev pub empty : Entry
empty = record {
  present = false;
  rw = false;
  privileged = false;
  page_size = false;
  global = false;
  nx = false;
  addr = 0;
}

-- The frames, the tables, and `vm_kern_table_lock`.
pub record Memory : Type 0 where
  pub frames : Frames
  pub tables : ℕ → ℕ → Entry
  pub kern_lock : Bool

-- `PM_MAP_BASE`: where the kernel sees the frames.
abbrev pub pm_map_base : ℕ
pm_map_base = 0xffff808000000000

-- `PML4IDX`, `PDPIDX`, `PDIDX` and `VM_OFFSET_PAGE_2M`
abbrev pub pml4_idx : ℕ → ℕ
pml4_idx va = va / 2 ^ 39 % 512

abbrev pub pdp_idx : ℕ → ℕ
pdp_idx va = va / 2 ^ 30 % 512

abbrev pub pd_idx : ℕ → ℕ
pd_idx va = va / 2 ^ 21 % 512

abbrev pub page_offset : ℕ → ℕ
page_offset va = va % 2 ^ 21

pub set_entry : ℕ → ℕ → Entry → (ℕ → ℕ → Entry) → ℕ → ℕ → Entry
set_entry t i e tables u j = if (u == t) && (j == i) then e else tables u j

-- `kmemset(table, 0, KMEM_PAGE_SIZE)`: a frame holds 512 tables.
pub clear_frame : ℕ → (ℕ → ℕ → Entry) → ℕ → ℕ → Entry
clear_frame t tables u j = if leb t u && ltb u (t + 512) then empty else tables u j

-- `get_pde_by_vma`: table and index of the entry, or the null pointer.
unfoldable pub get_pde_by_vma : ℕ → ℕ → (ℕ → ℕ → Entry) → Option (ℕ × ℕ)
get_pde_by_vma root vma tables =
    let pml4e = tables root (pml4_idx vma) in
    let pdpe = tables pml4e.addr (pdp_idx vma) in
    if pml4e.present then (if pdpe.present then some (pdpe.addr, pd_idx vma) else none) else none

-- The address that a present entry gives to `vma`.
abbrev pub address_in : Entry → ℕ → ℕ
address_in pde vma = pde.addr * 2 ^ 12 + page_offset vma

unfoldable pub vm_get_pma_by_vma : ℕ → ℕ → (ℕ → ℕ → Entry) → ℕ
vm_get_pma_by_vma root vma tables = elim (get_pde_by_vma root vma tables) [
  | none ↦ 0
  | some (t, i) ↦ if (tables t i).present then address_in (tables t i) vma else 0
]

pub vm_is_mapped : ℕ → ℕ → (ℕ → ℕ → Entry) → Bool
vm_is_mapped root vma tables =
    let pml4e = tables root (pml4_idx vma) in
    let pdpe = tables pml4e.addr (pdp_idx vma) in
    if pml4e.present
    then (if pdpe.present then (tables pdpe.addr (pd_idx vma)).present else false)
    else false

unfoldable pub get_attrs_by_vma : Entry → Attr
get_attrs_by_vma pde = record {
  present = pde.present;
  writable = pde.rw;
  privileged = not pde.privileged;
  executable = not pde.nx;
  global = pde.global;
}

-- `attr & ret`
unfoldable pub common : Attr → Attr → Attr
common a b = record {
  present = a.present && b.present;
  writable = a.writable && b.writable;
  privileged = a.privileged && b.privileged;
  executable = a.executable && b.executable;
  global = a.global && b.global;
}

-- `none` is the read through the null pointer that `get_pde_by_vma` returned.
unfoldable pub vm_check_attr : ℕ → ℕ → Attr → (ℕ → ℕ → Entry) → Option Attr
unfolding common get_attrs_by_vma
vm_check_attr root vma attr tables = elim (get_pde_by_vma root vma tables) [
  | none ↦ none
  | some (t, i) ↦ some (common attr (get_attrs_by_vma (tables t i)))
]

-- The entry that `vm_map_page` writes for a table that it allocates, on top of what is there.
abbrev pub table_entry : ℕ → Entry → Entry
table_entry pa e = record e { rw = true; present = true; addr = pa / 2 ^ 12 % 2 ^ 40 }

-- What making sure of a table comes to: it waits for the lock of the frames, there is no frame, or
-- the entry is present.
pub data Ensured : Type 0 where
  blocked : Ensured
  no_frame ready : Memory → Ensured

-- The new table in the frame `pa`.
pub install : ℕ → ℕ → ℕ → Frames → Memory → Memory
unfolding set_entry clear_frame
install t i pa frames m = record m {
  frames = frames;
  tables = set_entry t i (table_entry pa (m.tables t i)) (clear_frame (pa / 2 ^ 12) m.tables);
}

installed : ℕ → ℕ → Memory → Alloc → Ensured
unfolding install
installed t i m Alloc.blocked = Ensured.blocked
installed t i m (Alloc.returned pa frames) =
    if pa == 0
    then Ensured.no_frame (record m { frames = frames })
    else Ensured.ready (install t i pa frames m)

-- `if (!entry->present) { ... alloc_pt() ... }`, for the entry `i` of the table `t`.
pub ensure_table : ℕ → ℕ → Memory → Ensured
unfolding installed
ensure_table t i m =
    if (m.tables t i).present then Ensured.ready m else installed t i m (pma_alloc m.frames)

-- What `vm_map_page` comes to; `null` is the null pointer that it returns.
pub data Mapped : Type 0 where
  blocked panicked : Mapped
  null mapped : Memory → Mapped

-- The three entries that the mapping of a page writes.
abbrev pub pml4e_for : Attr → Entry → Entry
pml4e_for attr e = record e {
  privileged = e.privileged || not attr.privileged;
  rw = e.rw || attr.writable;
  nx = e.nx && not attr.executable;
}

abbrev pub pdpe_for : Attr → Entry → Entry
pdpe_for attr e = record e {
  privileged = not attr.privileged;
  rw = attr.writable;
  nx = not attr.executable;
}

abbrev pub pde_for : ℕ → Attr → Entry → Entry
pde_for pma attr e = record e {
  present = true;
  privileged = not attr.privileged;
  page_size = true;
  rw = attr.writable;
  nx = not attr.executable;
  global = attr.global;
  addr = pma / 2 ^ 12 % 2 ^ 40;
}

-- The end of `vm_map_page`, with the tables `root`, `t3` and `t2` on the way to the page.
pub write_page : ℕ → ℕ → ℕ → ℕ → ℕ → Attr → (ℕ → ℕ → Entry) → ℕ → ℕ → Entry
unfolding set_entry
write_page root t3 t2 vma pma attr tables =
    let w4 = set_entry root (pml4_idx vma) (pml4e_for attr (tables root (pml4_idx vma))) tables in
    let w3 = set_entry t3 (pdp_idx vma) (pdpe_for attr (w4 t3 (pdp_idx vma))) w4 in
    set_entry t2 (pd_idx vma) (pde_for pma attr (w3 t2 (pd_idx vma))) w3

map_entry : ℕ → ℕ → ℕ → Attr → Memory → Mapped
unfolding write_page
map_entry root vma pma attr m =
    let t3 = (m.tables root (pml4_idx vma)).addr in
    let t2 = (m.tables t3 (pdp_idx vma)).addr in
    let pde = m.tables t2 (pd_idx vma) in
    if pde.present
    then (if pma / 2 ^ 12 == pde.addr then Mapped.mapped m else Mapped.panicked)
    else Mapped.mapped (record m { tables = write_page root t3 t2 vma pma attr m.tables })

map_pd : ℕ → ℕ → ℕ → Attr → Ensured → Mapped
unfolding map_entry
map_pd root vma pma attr Ensured.blocked = Mapped.blocked
map_pd root vma pma attr (Ensured.no_frame m) = Mapped.null m
map_pd root vma pma attr (Ensured.ready m) = map_entry root vma pma attr m

map_pdp : ℕ → ℕ → ℕ → Attr → Ensured → Mapped
unfolding map_pd ensure_table
map_pdp root vma pma attr Ensured.blocked = Mapped.blocked
map_pdp root vma pma attr (Ensured.no_frame m) = Mapped.null m
map_pdp root vma pma attr (Ensured.ready m) =
    map_pd root vma pma attr (ensure_table (m.tables root (pml4_idx vma)).addr (pdp_idx vma) m)

pub vm_map_page : ℕ → ℕ → ℕ → Attr → Memory → Mapped
unfolding map_pdp ensure_table
vm_map_page root vma pma attr m = map_pdp root vma pma attr (ensure_table root (pml4_idx vma) m)

-- The address of the page, and the memory; `none` is the PANIC of one of the three VERIFYs.
pub vm_unmap_page : ℕ → ℕ → Memory → Option (ℕ × Memory)
unfolding set_entry
vm_unmap_page root vma m =
    let pml4e = m.tables root (pml4_idx vma) in
    let pdpe = m.tables pml4e.addr (pdp_idx vma) in
    let pde = m.tables pdpe.addr (pd_idx vma) in
    if pml4e.present && pdpe.present && pde.present
    then some
        (pde.addr * 2 ^ 12, record m { tables = set_entry pdpe.addr (pd_idx vma) empty m.tables })
    else none
