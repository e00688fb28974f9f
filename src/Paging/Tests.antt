-- ===== src/Paging/Tests.antt =====
-- The page tables of kernel/k_memory.c at a concrete memory.
use yomotsu.Base.{
  ◌&&◌, ◌||◌, ℕ, ◌+◌, ◌-◌, ◌*◌, ◌/◌, ◌^◌, ◌≡◌, ◌≢◌, refl, true, false, arith, ltb, ◌==◌,
  if◌then◌else◌, some, ℕ_discrete,
}
use yomotsu.Frames.{page_size}
use yomotsu.Paging.{
  Attr, empty, Memory, Mapped, vm_map_page, vm_unmap_page, vm_get_pma_by_vma, vm_is_mapped,
  vm_check_attr, common, pml4_idx,
}
use yomotsu.Paging.Teardown.{vm_empty_userland, vm_empty_pd, vm_empty_userland-unmaps}
use yomotsu.Paging.Teardown.Frees.{references, released, vm_empty_pd-frees}
use yomotsu.Paging.Tree.{Owner, IsTree, leaf}
use yomotsu.Paging.Mapping.{Outcome, page_entry, vm_map_page-refines}
use yomotsu.Paging.Translate.{vm_map_page-translates, vm_map_page-grants, vm_unmap_page-vm_map_page}
use yomotsu.Paging.Spare.{vm_map_page-finishes}
use yomotsu.Paging.Kernel.{
  Found, vm_alloc_vaddr, vm_unmap_n, kernel_begin, kernel_end, Anywhere, vm_kern_alloc_anywhere,
  search, scan,
}
use yomotsu.Paging.Kernel.Search.{Searched, vm_alloc_vaddr_lem}
use yomotsu.Paging.Kernel.Pages.{vm_kern_alloc_anywhere-NoAddress}
use yomotsu.Paging.Kernel.Unmap.{Unmaps, vm_unmap_n_lem}

-- The root is the table 512, in frame 1; the frames from 2 on are free.
abbrev bare : Memory
bare = record {
  frames = record {
    map = λ i. if ltb i 2 then 1 else 0;
    locked = false;
    upper_limit = 16 * page_size;
  };
  tables = λ t i. empty;
  kern_lock = false;
}

abbrev bare_own : ℕ → Owner
bare_own t = if t == 512 then Owner.root else Owner.free

bare-IsTree : IsTree 512 bare_own bare
bare-IsTree = record {
  at_root = refl;
  at_pdp = λ i ne on. absurd (ground arith);
  at_pd = λ i j t e on. absurd (ground arith);
  in_use = λ t used. elim (ℕ_discrete t 512) [
    | yes e ↦ rw e (omega arith)
    | no ne ↦ absurd (used (ground arith))
  ];
}

-- A page of a user's data, at 1 GB and 2 MB.
abbrev user_page : ℕ
user_page = 2 ^ 30 + 2 ^ 21

abbrev data_attr : Attr
data_attr = record {
  present = false;
  writable = true;
  privileged = false;
  executable = false;
  global = false;
}

vm_map_page-refines_example :
    Outcome 512 user_page
      (9 * page_size)
      data_attr
      bare
      (vm_map_page 512 user_page (9 * page_size) data_attr bare)
vm_map_page-refines_example =
    vm_map_page-refines user_page (9 * page_size) data_attr bare-IsTree (omega arith)

user_page-unmapped : (page_entry 512 user_page bare).present ≡ false
unfolding leaf
user_page-unmapped = refl

user_page_off : vm_is_mapped 512 user_page bare.tables ≡ false
unfolding vm_is_mapped
user_page_off = refl

bare-maps :
    (m' : Memory) × (vm_map_page 512 user_page (9 * page_size) data_attr bare ≡ Mapped.mapped m')
bare-maps =
    vm_map_page-finishes user_page (9 * page_size) 2 3 data_attr bare-IsTree (omega arith)
      user_page-unmapped (omega arith) (omega arith) (omega arith, refl) (omega arith, refl)

vm_map_page-finishes_example :
    (m' : Memory) × (vm_map_page 512 user_page (9 * page_size) data_attr bare ≡ Mapped.mapped m')
vm_map_page-finishes_example =
    vm_map_page-finishes user_page (9 * page_size) 2 3 data_attr bare-IsTree (omega arith)
      user_page-unmapped (omega arith) (omega arith) (omega arith, refl) (omega arith, refl)

abbrev mapped_memory : Memory
mapped_memory = bare-maps.0

vm_map_page-translates_example :
    vm_get_pma_by_vma 512 (user_page + 77) mapped_memory.tables ≡ 9 * page_size + 77
vm_map_page-translates_example =
    vm_map_page-translates user_page (9 * page_size) (user_page + 77) data_attr bare-IsTree
      (omega arith) (omega arith) (omega arith) (omega arith) bare-maps.1

vm_map_page-grants_example :
    vm_check_attr 512
      (user_page + 77)
      (record data_attr { present = true; privileged = true })
      mapped_memory.tables
    ≡ some (
        common
          (record data_attr { present = true; privileged = true })
          (record data_attr { present = true }))
vm_map_page-grants_example =
    vm_map_page-grants user_page (9 * page_size) (user_page + 77) data_attr
      (record data_attr { present = true; privileged = true }) bare-IsTree (omega arith)
      user_page-unmapped refl bare-maps.1

vm_unmap_page-vm_map_page_example :
    (m2 : Memory) × (vm_unmap_page 512 user_page mapped_memory ≡ some (9 * page_size, m2))
    × ((va : ℕ)
        → pml4_idx va ≢ 256
        → vm_get_pma_by_vma 512 va m2.tables ≡ vm_get_pma_by_vma 512 va bare.tables)
vm_unmap_page-vm_map_page_example =
    vm_unmap_page-vm_map_page user_page (9 * page_size) data_attr bare-IsTree (omega arith)
      (omega arith) (omega arith) user_page_off bare-maps.1

vm_alloc_vaddr_lem_example :
    Searched 512 bare.tables
      (3 * page_size)
      (64 * page_size - 2 * page_size)
      (2 * page_size)
      (vm_alloc_vaddr 512 (3 * page_size) (64 * page_size) (2 * page_size) bare.tables)
vm_alloc_vaddr_lem_example =
    vm_alloc_vaddr_lem 512 bare.tables (3 * page_size) (64 * page_size) (2 * page_size)
      (omega arith) (omega arith) (omega arith) (omega arith) (omega arith) (omega arith)

vm_unmap_n_lem_example :
    Unmaps 512 bare_own
      (user_page / page_size * page_size)
      (user_page + 100)
      bare
      (vm_unmap_n 512 user_page 100 bare)
vm_unmap_n_lem_example =
    vm_unmap_n_lem user_page 100 bare-IsTree (omega arith) (omega arith) (omega arith)
      (λ x lo hi. omega arith)

room_is_found :
    vm_alloc_vaddr 512 kernel_begin kernel_end page_size bare.tables ≡ Found.at kernel_begin
unfolding vm_alloc_vaddr search scan vm_is_mapped
room_is_found = refl

vm_kern_alloc_anywhere-NoAddress_example :
    vm_kern_alloc_anywhere 512 page_size bare ≡ Anywhere.blocked
vm_kern_alloc_anywhere-NoAddress_example =
    (vm_kern_alloc_anywhere-NoAddress 512 page_size bare).1 kernel_begin 2 room_is_found
      (omega arith) (omega arith) refl

vm_empty_userland-unmaps_example :
    vm_is_mapped 512 user_page (vm_empty_userland 512 bare).tables ≡ false
vm_empty_userland-unmaps_example = vm_empty_userland-unmaps 512 user_page bare (omega arith)

-- A page directory 700 with the frame 5 at two of its entries.
abbrev shared : Memory
shared = record bare {
  frames = record bare.frames { map = λ i. if i == 5 then 2 else 0 };
  tables = λ t i.
      if (t == 700) && ((i == 3) || (i == 9))
      then record empty { present = true; addr = 5 * 512 }
      else empty;
}

vm_empty_pd-frees_example :
    (vm_empty_pd 700 shared).frames.map 5 ≡ released (references 512 0 (shared.tables 700) 5) 2
vm_empty_pd-frees_example = vm_empty_pd-frees 700 5 shared
