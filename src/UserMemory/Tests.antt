-- ===== src/UserMemory/Tests.antt =====
-- Access to a user's memory, kernel/k_user_mem.c, at a concrete machine.
use yomotsu.Base.{
  ◌≢◌, ◌⊎◌, ℕ, ◌+◌, ◌*◌, ◌^◌, ◌≤◌, ◌≡◌, inl, inr, refl, true, arith, ◌==◌, if◌then◌else◌,
}
use yomotsu.Paging.{
  Entry, empty, vm_check_attr, vm_get_pma_by_vma, get_pde_by_vma, common, get_attrs_by_vma,
}
use yomotsu.UserMemory.{
  AddressSpace, Machine, Checked, Called, user_memory_check_read, check_pages, seen_at,
  user_memory_read, user_memory_write, user_memory_copy,
}
use yomotsu.UserMemory.Locked.{Ends}
use yomotsu.UserMemory.Transfer.{
  InPage, Reads, Writes, user_memory_read-Reads, user_memory_write-Writes,
}
use yomotsu.UserMemory.Copy.{Copies, user_memory_copy-Copies}

abbrev table_at : ℕ → Entry
table_at t = record empty { present = true; rw = true; privileged = true; addr = t }

-- Two address spaces, with the roots 512 and 2048, each of which maps all pages to one frame.
abbrev machine : Machine
machine = record {
  tables = λ t i.
      if t == 512
      then table_at 1024
      else if t == 1024
      then table_at 1536
      else if t == 1536
      then table_at (9 * 512)
      else if t == 2048
      then table_at 2560
      else if t == 2560
      then table_at 3072
      else if t == 3072
      then table_at (20 * 512)
      else empty;
  bytes = λ a. a;
  owner = λ lock. 0;
}

abbrev space : AddressSpace
space = record { root = 512; lock = 64 }

abbrev other_space : AddressSpace
other_space = record { root = 2048; lock = 128 }

abbrev user_va : ℕ
user_va = 2 ^ 30 + 77

space-InPage : InPage 512 user_va 100 machine.tables
unfolding vm_get_pma_by_vma get_pde_by_vma
space-InPage = record {
  some_bytes = omega arith;
  within = omega arith;
  no_wrap = omega arith;
  seen = omega arith;
}

other_space-InPage : InPage 2048 user_va 100 machine.tables
unfolding vm_get_pma_by_vma get_pde_by_vma
other_space-InPage = record {
  some_bytes = omega arith;
  within = omega arith;
  no_wrap = omega arith;
  seen = omega arith;
}

seen_far : (seen_at 512 user_va machine.tables + 100 ≤ seen_at 2048 user_va machine.tables)
unfolding vm_get_pma_by_vma get_pde_by_vma
seen_far = omega arith

kernel_below : 4096 ≤ seen_at 512 user_va machine.tables
unfolding vm_get_pma_by_vma get_pde_by_vma
kernel_below = omega arith

kernel_ends_below : 4096 + 100 ≤ seen_at 512 user_va machine.tables
unfolding vm_get_pma_by_vma get_pde_by_vma
kernel_ends_below = omega arith

user_memory_read-Reads_example :
    Ends
      (Reads 512 4096 user_va 100 machine)
      machine.owner
      (user_memory_read 100 7 space 4096 user_va 100 machine)
user_memory_read-Reads_example =
    user_memory_read-Reads 99 7 space 4096 user_va 100 machine refl space-InPage (inl kernel_below)

user_memory_write-Writes_example :
    Ends
      (Writes 512 user_va 4096 100 machine)
      machine.owner
      (user_memory_write 100 7 space user_va 4096 100 machine)
user_memory_write-Writes_example =
    user_memory_write-Writes 99 7 space user_va 4096 100 machine refl space-InPage
      (inr kernel_ends_below)

user_memory_copy-Copies_example :
    ((space.lock ≢ other_space.lock)
      × Ends
          (Copies 2048 user_va 512 user_va 100 machine)
          machine.owner
          (user_memory_copy 100 7 other_space user_va space user_va 100 machine))
    ⊎ ((space.lock ≡ other_space.lock)
        × ((k : ℕ)
            → user_memory_copy k 7 other_space user_va space user_va 100 machine ≡ Called.blocked))
user_memory_copy-Copies_example =
    user_memory_copy-Copies 99 7 other_space user_va space user_va 100 machine (omega arith) refl
      refl space-InPage other_space-InPage (inr (inl seen_far))

user_page-is_read : user_memory_check_read 512 user_va 100 machine.tables ≡ Checked.verdict true
unfolding user_memory_check_read check_pages vm_check_attr get_pde_by_vma common get_attrs_by_vma
user_page-is_read = refl

-- An address that no table is behind.
no_table-faults : user_memory_check_read 777 user_va 100 machine.tables ≡ Checked.faulted
unfolding user_memory_check_read check_pages vm_check_attr get_pde_by_vma common get_attrs_by_vma
no_table-faults = refl
