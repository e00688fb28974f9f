-- ===== src/UserMemory/Transfer.antt =====
-- `user_memory_read`, `user_memory_write` and `user_memory_copy` of kernel/k_user_mem.c.
use yomotsu.Base.{
  suc, ℕ, ◌+◌, ◌*◌, ◌≤◌, ◌<◌, ◌≡◌, ◌⊎◌, refl, ap, true, false, arith, none, some, ◌∙◌, sym, subst,
  u64_mod,
}
use yomotsu.Frames.{page_size}
use yomotsu.Paging.{Attr, Entry, vm_check_attr, vm_get_pma_by_vma, page_offset, pm_map_base}
use yomotsu.Paging.Translate.{vm_get_pma_by_vma-within}
use yomotsu.KString.{kmemcpy}
use yomotsu.KString.Blocks.{kmemcpy_lem, kmemcpy-outside}
use yomotsu.UserMemory.{
  AddressSpace, Machine, Checked, Access, after_check, user_memory_check_read,
  user_memory_check_write, read_asked, read_expected, write_asked, write_expected, seen_at,
  user_memory_read, user_memory_write, read_locked, write_locked,
}
use yomotsu.UserMemory.Locked.{Ends, with_mutex-Ends}
use yomotsu.UserMemory.Check.{Checks, Grants, Refuses, check_read-Checks, check_write-Checks}

-- A range of a user's addresses that lies in one page, and in the kernel's view does not wrap around.
pub record InPage (root va size : ℕ) (tables : ℕ → ℕ → Entry) : Type 0 where
  pub some_bytes : 0 < size
  pub within : page_offset va + size ≤ page_size
  pub no_wrap : va + size + page_size ≤ u64_mod
  pub seen : vm_get_pma_by_vma root va tables + pm_map_base + size ≤ u64_mod

pub seen_at-within :
    (root va size i : ℕ) (asked a : Attr) (tables : ℕ → ℕ → Entry)
    → InPage root va size tables
    → vm_check_attr root va asked tables ≡ some a
    → a.present ≡ true
    → i < size
    → seen_at root (va + i) tables ≡ seen_at root va tables + i
seen_at-within root va size i asked a tables p e on lt =
    let step = vm_get_pma_by_vma-within root va i tables (omega (arith, p.within)) asked a e on in
    let fits = p.seen in rw step (omega arith)

-- In one page, only the page of the first address is looked at.
abbrev pub Looks : ℕ → Attr → Attr → (ℕ → ℕ → Entry) → ℕ → Checked → Type 0
Looks root asked expected tables va Checked.unfinished = ⊥
Looks root asked expected tables va Checked.faulted = vm_check_attr root va asked tables ≡ none
Looks root asked expected tables va (Checked.verdict true) = Grants root asked expected tables va
Looks root asked expected tables va (Checked.verdict false) = Refuses root asked expected tables va

pub Checks-Looks :
    (root : ℕ) (asked expected : Attr) (tables : ℕ → ℕ → Entry) (va size : ℕ) (c : Checked)
    → 0 < size
    → page_offset va + size ≤ page_size
    → Checks root asked expected tables va (va + size) c
    → Looks root asked expected tables va c
Checks-Looks root asked expected tables va size Checked.unfinished pos fits h = h
Checks-Looks root asked expected tables va size Checked.faulted pos fits (k, lt, e, _) =
    let first : va + k * page_size ≡ va = omega arith in
    subst (λ x. vm_check_attr root x asked tables ≡ none) first e
Checks-Looks root asked expected tables va size (Checked.verdict true) pos fits h =
    let first : va + 0 * page_size ≡ va = omega arith in
    subst (Grants root asked expected tables) first (h 0 (omega arith))
Checks-Looks root asked expected tables va size (Checked.verdict false) pos fits (k, lt, e, _) =
    let first : va + k * page_size ≡ va = omega arith in
    subst (Refuses root asked expected tables) first e

abbrev pub Reads : ℕ → ℕ → ℕ → ℕ → Machine → Access → Type 0
Reads root dst src size m Access.unfinished = ⊥
Reads root dst src size m Access.faulted = vm_check_attr root src read_asked m.tables ≡ none
Reads root dst src size m (Access.refused code) =
    (code ≡ 0) × Refuses root read_asked read_expected m.tables src
Reads root dst src size m (Access.done bytes) =
    Grants root read_asked read_expected m.tables src
    × ((i : ℕ) → i < size → bytes (dst + i) ≡ m.bytes (seen_at root (src + i) m.tables))
    × ((x : ℕ) → (x < dst) ⊎ (dst + size ≤ x) → bytes x ≡ m.bytes x)

after_check-Reads :
    (root dst src size : ℕ) (m : Machine) (c : Checked)
    → InPage root src size m.tables
    → (dst ≤ seen_at root src m.tables) ⊎ (seen_at root src m.tables + size ≤ dst)
    → Looks root read_asked read_expected m.tables src c
    → Reads root dst src size m
        (after_check 0 (kmemcpy dst (seen_at root src m.tables) size m.bytes) c)
unfolding after_check
after_check-Reads root dst src size m Checked.unfinished p far h = h
after_check-Reads root dst src size m Checked.faulted p far h = h
after_check-Reads root dst src size m (Checked.verdict false) p far h = (refl, h)
after_check-Reads root dst src size m (Checked.verdict true) p far h = (
  h,
  (λ i lt.
      kmemcpy_lem dst (seen_at root src m.tables) size m.bytes i far lt
      ∙ ap m.bytes
          (sym (seen_at-within root src size i read_asked read_expected m.tables p h refl lt))),
  λ x out. kmemcpy-outside dst (seen_at root src m.tables) size m.bytes x out,
)

-- `user_memory_read` of a range in one page, to a block of the kernel that starts at or below the
-- bytes read or behind them, with the mutex free and nobody else running: it reads through the null pointer just if the page
-- has no table, it refuses just if the page has one and is not present or not a user's, and else the
-- kernel's block holds the user's bytes and no other byte is
-- changed. Unless it faults it leaves every mutex as it was.
pub user_memory_read-Reads :
    (n proc : ℕ) (space : AddressSpace) (dst src size : ℕ) (m : Machine)
    → m.owner space.lock ≡ 0
    → InPage space.root src size m.tables
    → (dst ≤ seen_at space.root src m.tables) ⊎ (seen_at space.root src m.tables + size ≤ dst)
    → Ends
        (Reads space.root dst src size m)
        m.owner
        (user_memory_read (suc n) proc space dst src size m)
unfolding user_memory_read read_locked
user_memory_read-Reads n proc space dst src size m unlocked p far =
    let looks =
      Checks-Looks space.root read_asked read_expected m.tables src size
        (user_memory_check_read space.root src size m.tables) p.some_bytes p.within
        (check_read-Checks space.root src size m.tables p.no_wrap) in
    with_mutex-Ends (Reads space.root dst src size m) n proc space.lock m.owner
      (read_locked space dst src size m) unlocked (λ never. never)
      (after_check-Reads space.root dst src size m _ p far looks)

abbrev pub Writes : ℕ → ℕ → ℕ → ℕ → Machine → Access → Type 0
Writes root dst src size m Access.unfinished = ⊥
Writes root dst src size m Access.faulted = vm_check_attr root dst write_asked m.tables ≡ none
Writes root dst src size m (Access.refused code) =
    (code ≡ 0) × Refuses root write_asked write_expected m.tables dst
Writes root dst src size m (Access.done bytes) =
    Grants root write_asked write_expected m.tables dst
    × ((i : ℕ) → i < size → bytes (seen_at root (dst + i) m.tables) ≡ m.bytes (src + i))
    × ((x : ℕ)
        → (x < seen_at root dst m.tables) ⊎ (seen_at root dst m.tables + size ≤ x)
        → bytes x ≡ m.bytes x)

after_check-Writes :
    (root dst src size : ℕ) (m : Machine) (c : Checked)
    → InPage root dst size m.tables
    → (seen_at root dst m.tables ≤ src) ⊎ (src + size ≤ seen_at root dst m.tables)
    → Looks root write_asked write_expected m.tables dst c
    → Writes root dst src size m
        (after_check 0 (kmemcpy (seen_at root dst m.tables) src size m.bytes) c)
unfolding after_check
after_check-Writes root dst src size m Checked.unfinished p far h = h
after_check-Writes root dst src size m Checked.faulted p far h = h
after_check-Writes root dst src size m (Checked.verdict false) p far h = (refl, h)
after_check-Writes root dst src size m (Checked.verdict true) p far h = (
  h,
  (λ i lt.
      ap (kmemcpy (seen_at root dst m.tables) src size m.bytes)
        (seen_at-within root dst size i write_asked write_expected m.tables p h refl lt)
      ∙ kmemcpy_lem (seen_at root dst m.tables) src size m.bytes i far lt),
  λ x out. kmemcpy-outside (seen_at root dst m.tables) src size m.bytes x out,
)

-- `user_memory_write` of a range in one page, from a block of the kernel that starts at or above the
-- bytes written or ends below them, with the mutex free and nobody else running: it reads through the null pointer just if the
-- page has no table, it refuses just if the page has one and is not the user's to write, and else the
-- user's bytes are those of the kernel's block and no other byte is
-- changed. Unless it faults it leaves every mutex as it was.
pub user_memory_write-Writes :
    (n proc : ℕ) (space : AddressSpace) (dst src size : ℕ) (m : Machine)
    → m.owner space.lock ≡ 0
    → InPage space.root dst size m.tables
    → (seen_at space.root dst m.tables ≤ src) ⊎ (src + size ≤ seen_at space.root dst m.tables)
    → Ends
        (Writes space.root dst src size m)
        m.owner
        (user_memory_write (suc n) proc space dst src size m)
unfolding user_memory_write write_locked
user_memory_write-Writes n proc space dst src size m unlocked p far =
    let looks =
      Checks-Looks space.root write_asked write_expected m.tables dst size
        (user_memory_check_write space.root dst size m.tables) p.some_bytes p.within
        (check_write-Checks space.root dst size m.tables p.no_wrap) in
    with_mutex-Ends (Writes space.root dst src size m) n proc space.lock m.owner
      (write_locked space dst src size m) unlocked (λ never. never)
      (after_check-Writes space.root dst src size m _ p far looks)
