-- ===== src/UserMemory/Copy.antt =====
-- `user_memory_copy` of kernel/k_user_mem.c, from one address space to another.
use yomotsu.Base.{
  suc, ◌≢◌, ℕ, ◌+◌, ◌-◌, ◌<◌, ◌^◌, ◌≡◌, ◌⊎◌, inl, inr, refl, ap, true, false, none, ◌∙◌, sym,
}
use yomotsu.Paging.{vm_check_attr}
use yomotsu.KString.{kmemmov}
use yomotsu.KString.Blocks.{kmemmov_lem, MovesWell}
use yomotsu.UserMemory.{
  AddressSpace, Machine, Checked, Access, Called, after_check, copy_checked, user_memory_check_read,
  read_asked, read_expected, write_asked, write_expected, seen_at, user_memory_copy,
}
use yomotsu.UserMemory.Locked.{Ends, with_mutexes-Ends}
use yomotsu.UserMemory.Check.{Grants, Refuses, check_read-Checks, check_write-Checks}
use yomotsu.UserMemory.Transfer.{InPage, Looks, Checks-Looks, seen_at-within}

module _ (dst_root dst src_root src size : ℕ) (m : Machine) where
  abbrev MayRead : Type 0
  MayRead = Grants src_root read_asked read_expected m.tables src

  abbrev MayWrite : Type 0
  MayWrite = Grants dst_root write_asked write_expected m.tables dst

  -- The result 1 is for the source and -1 for the destination.
  abbrev pub Copies : Access → Type 0
  Copies Access.unfinished = ⊥
  Copies Access.faulted =
      (vm_check_attr src_root src read_asked m.tables ≡ none)
      ⊎ (MayRead × (vm_check_attr dst_root dst write_asked m.tables ≡ none))
  Copies (Access.refused code) =
      ((code ≡ 1) × Refuses src_root read_asked read_expected m.tables src)
      ⊎ ((code ≡ 2 ^ 64 - 1) × MayRead × Refuses dst_root write_asked write_expected m.tables dst)
  Copies (Access.done bytes) =
      MayRead
      × MayWrite
      × ((i : ℕ)
          → i < size
          → bytes (seen_at dst_root (dst + i) m.tables)
            ≡ m.bytes (seen_at src_root (src + i) m.tables))

  module _ (p : InPage src_root src size m.tables) (q : InPage dst_root dst size m.tables)
      (well : MovesWell (seen_at dst_root dst m.tables) (seen_at src_root src m.tables) size) where
    moved-Copies :
        (c : Checked)
        → MayRead
        → Looks dst_root write_asked write_expected m.tables dst c
        → Copies (
            after_check
              (2 ^ 64 - 1)
              (kmemmov (seen_at dst_root dst m.tables) (seen_at src_root src m.tables) size m.bytes)
              c)
    unfolding after_check
    moved-Copies Checked.unfinished g h = h
    moved-Copies Checked.faulted g h = inr (g, h)
    moved-Copies (Checked.verdict false) g h = inr (refl, g, h)
    moved-Copies (Checked.verdict true) g h = (
      g,
      h,
      λ i lt.
          ap (kmemmov (seen_at dst_root dst m.tables) (seen_at src_root src m.tables) size m.bytes)
            (seen_at-within dst_root dst size i write_asked write_expected m.tables q h refl lt)
          ∙ kmemmov_lem (seen_at dst_root dst m.tables) (seen_at src_root src m.tables) size m.bytes
              i well lt
          ∙ ap m.bytes (
              sym
                (seen_at-within src_root src size i read_asked read_expected m.tables p g refl lt)),
    )

copy_checked-Copies :
    (dst_space : AddressSpace) (dst : ℕ) (src_space : AddressSpace) (src size : ℕ) (m : Machine)
    (c : Checked)
    → InPage src_space.root src size m.tables
    → InPage dst_space.root dst size m.tables
    → MovesWell (seen_at dst_space.root dst m.tables) (seen_at src_space.root src m.tables) size
    → Looks src_space.root read_asked read_expected m.tables src c
    → Copies dst_space.root dst src_space.root src size m
        (copy_checked dst_space dst src_space src size m c)
unfolding copy_checked
copy_checked-Copies dst_space dst src_space src size m Checked.unfinished p q well h = h
copy_checked-Copies dst_space dst src_space src size m Checked.faulted p q well h = inl h
copy_checked-Copies dst_space dst src_space src size m (Checked.verdict false) p q well h =
    inl (refl, h)
copy_checked-Copies dst_space dst src_space src size m (Checked.verdict true) p q well h =
    moved-Copies dst_space.root dst src_space.root src size m p q well _ h (
      Checks-Looks dst_space.root write_asked write_expected m.tables dst size _ q.some_bytes
        q.within (check_write-Checks dst_space.root dst size m.tables q.no_wrap))

-- `user_memory_copy` with nobody else running, with the mutexes of both address spaces free, of
-- ranges that lie in one page each and whose frames `kmemmov` moves right. If the two mutexes differ,
-- it reads through the null pointer just if the source's page has no table, or the source is the
-- user's to read and the destination's page has no table; it gives 1 just if the source's page has a
-- table and is not the user's to read, -1 just if the source is and the destination's page has a
-- table and is not the user's to write; and else the bytes of the destination are those of the
-- source. Unless it faults it leaves every mutex as it was. With one mutex twice, that is within one
-- address space, it never returns.
pub user_memory_copy-Copies :
    (n proc : ℕ) (dst_space : AddressSpace) (dst : ℕ) (src_space : AddressSpace) (src size : ℕ)
    (m : Machine)
    → proc ≢ 0
    → m.owner src_space.lock ≡ 0
    → m.owner dst_space.lock ≡ 0
    → InPage src_space.root src size m.tables
    → InPage dst_space.root dst size m.tables
    → MovesWell (seen_at dst_space.root dst m.tables) (seen_at src_space.root src m.tables) size
    → ((src_space.lock ≢ dst_space.lock)
        × Ends
            (Copies dst_space.root dst src_space.root src size m)
            m.owner
            (user_memory_copy (suc n) proc dst_space dst src_space src size m))
      ⊎ ((src_space.lock ≡ dst_space.lock)
          × ((k : ℕ) → user_memory_copy k proc dst_space dst src_space src size m ≡ Called.blocked))
unfolding user_memory_copy
user_memory_copy-Copies n proc dst_space dst src_space src size m ne free free' p q well =
    let read = user_memory_check_read src_space.root src size m.tables in
    let looks =
      Checks-Looks src_space.root read_asked read_expected m.tables src size read p.some_bytes
        p.within (check_read-Checks src_space.root src size m.tables p.no_wrap) in
    with_mutexes-Ends (Copies dst_space.root dst src_space.root src size m) n proc src_space.lock
      dst_space.lock m.owner (copy_checked dst_space dst src_space src size m read) ne free free'
      (λ never. never) (copy_checked-Copies dst_space dst src_space src size m read p q well looks)
