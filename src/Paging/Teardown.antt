-- ===== src/Paging/Teardown.antt =====
-- Taking an address space apart: `vm_empty_pd`, `vm_empty_pdp` and `vm_empty_userland` of
-- kernel/k_memory.c. Tables are read again after each call, as the code does.
pub mod Frees
use yomotsu.Base.{
  ◌/◌, ◌∙◌, ℕ, zero, suc, ◌+◌, ◌*◌, ◌^◌, ◌≤◌, ◌<◌, ◌≡◌, inl, inr, Bool, true, false, if◌then◌else◌,
  arith, add-one, Bool-cases, ℕ_discrete, refl, ◌&&◌, ◌==◌,
}
use yomotsu.Frames.Range.{pma_free-frame}
use yomotsu.Frames.{dec_u8, page_size, pma_free}
use yomotsu.Paging.{Entry, Memory, set_entry, vm_is_mapped, pml4_idx}

-- `table[i].present = 0`
pub clear_present : ℕ → ℕ → Memory → Memory
unfolding set_entry
clear_present t i m = record m {
  tables = set_entry t i (record (m.tables t i) { present = false }) m.tables;
}

-- `pma_free(table[i].addr << 12, KMEM_PAGE_SIZE)`, for a page, and as `free_pt` for a table
pub free_entry : ℕ → ℕ → Memory → Memory
free_entry t i m = record m { frames = pma_free ((m.tables t i).addr * 2 ^ 12) page_size m.frames }

-- The three loops over the entries of a table, from `i` on with `n` left.
pub for_entries : (ℕ → Memory → Memory) → ℕ → ℕ → Memory → Memory
for_entries body zero i m = m
for_entries body (suc n) i m = for_entries body n (i + 1) (body i m)

-- The bodies of the loops.
pub empty_pd_entry : ℕ → ℕ → Memory → Memory
unfolding clear_present free_entry
empty_pd_entry t i m = if (m.tables t i).present then clear_present t i (free_entry t i m) else m

pub vm_empty_pd : ℕ → Memory → Memory
unfolding for_entries empty_pd_entry
vm_empty_pd t m = for_entries (empty_pd_entry t) 512 0 m

empty_pdp_entry : ℕ → ℕ → Memory → Memory
unfolding clear_present free_entry
empty_pdp_entry t i m =
    if (m.tables t i).present
    then clear_present t i (free_entry t i (vm_empty_pd (m.tables t i).addr m))
    else m

pub vm_empty_pdp : ℕ → Memory → Memory
unfolding for_entries empty_pdp_entry
vm_empty_pdp t m = for_entries (empty_pdp_entry t) 512 0 m

empty_pml4_entry : ℕ → ℕ → Memory → Memory
unfolding clear_present free_entry
empty_pml4_entry t i m =
    if (m.tables t i).present
    then free_entry t i (clear_present t i (vm_empty_pdp (m.tables t i).addr m))
    else m

pub vm_empty_userland : ℕ → Memory → Memory
unfolding for_entries empty_pml4_entry
vm_empty_userland t m = for_entries (empty_pml4_entry t) 256 0 m

-- From `m` to `m'` no entry becomes present.
Fades : Memory → Memory → Type 0
Fades m m' = (t j : ℕ) → (m.tables t j).present ≡ false → (m'.tables t j).present ≡ false

clear_present-Fades : (t i : ℕ) (m : Memory) → Fades m (clear_present t i m)
unfolding Fades clear_present set_entry
clear_present-Fades t i m u j e = ground arith

clear_present-absent : (t i : ℕ) (m : Memory) → ((clear_present t i m).tables t i).present ≡ false
unfolding clear_present set_entry
clear_present-absent t i m = ground arith

for_entries-Fades :
    (body : ℕ → Memory → Memory) (n i : ℕ) (m : Memory)
    → ((k : ℕ) (m1 : Memory) → Fades m1 (body k m1))
    → Fades m (for_entries body n i m)
unfolding Fades for_entries
for_entries-Fades body zero i m h t j e = e
for_entries-Fades body (suc n) i m h t j e =
    for_entries-Fades body n (i + 1) (body i m) h t j (h i m t j e)

-- A loop whose body clears its entry clears all of them.
for_entries-absent :
    (body : ℕ → Memory → Memory) (t n i j : ℕ) (m : Memory)
    → ((k : ℕ) (m1 : Memory) → Fades m1 (body k m1))
    → ((k : ℕ) (m1 : Memory) → ((body k m1).tables t k).present ≡ false)
    → i ≤ j
    → j < i + n
    → ((for_entries body n i m).tables t j).present ≡ false
unfolding for_entries Fades
for_entries-absent body t zero i j m h c lo hi = absurd (omega arith)
for_entries-absent body t (suc n) i j m h c lo hi = elim (ℕ_discrete j i) [
  | yes e ↦ rw e (for_entries-Fades body n (i + 1) (body i m) h t i (c i m))
  | no ne ↦ for_entries-absent body t n (i + 1) j (body i m) h c (omega arith) (omega arith)
]

empty_pd_entry-Fades : (t k : ℕ) (m : Memory) → Fades m (empty_pd_entry t k m)
unfolding empty_pd_entry Fades free_entry
empty_pd_entry-Fades t k m u j e = elim (Bool-cases (m.tables t k).present) [
  | inl p ↦ rw p (clear_present-Fades t k (free_entry t k m) u j e)
  | inr p ↦ rw p e
]

vm_empty_pd-Fades : (t : ℕ) (m : Memory) → Fades m (vm_empty_pd t m)
unfolding vm_empty_pd
vm_empty_pd-Fades t m = for_entries-Fades (empty_pd_entry t) 512 0 m (empty_pd_entry-Fades t)

empty_pdp_entry-Fades : (t k : ℕ) (m : Memory) → Fades m (empty_pdp_entry t k m)
unfolding empty_pdp_entry Fades free_entry
empty_pdp_entry-Fades t k m u j e = elim (Bool-cases (m.tables t k).present) [
  | inl p ↦
      let m1 = vm_empty_pd (m.tables t k).addr m in
      rw p (
        clear_present-Fades t k (free_entry t k m1) u j
          (vm_empty_pd-Fades (m.tables t k).addr m u j e))
  | inr p ↦ rw p e
]

vm_empty_pdp-Fades : (t : ℕ) (m : Memory) → Fades m (vm_empty_pdp t m)
unfolding vm_empty_pdp
vm_empty_pdp-Fades t m = for_entries-Fades (empty_pdp_entry t) 512 0 m (empty_pdp_entry-Fades t)

empty_pml4_entry-Fades : (t k : ℕ) (m : Memory) → Fades m (empty_pml4_entry t k m)
unfolding empty_pml4_entry Fades free_entry
empty_pml4_entry-Fades t k m u j e = elim (Bool-cases (m.tables t k).present) [
  | inl p ↦
      let m1 = vm_empty_pdp (m.tables t k).addr m in
      rw p (clear_present-Fades t k m1 u j (vm_empty_pdp-Fades (m.tables t k).addr m u j e))
  | inr p ↦ rw p e
]

empty_pml4_entry-absent :
    (t k : ℕ) (m : Memory) → ((empty_pml4_entry t k m).tables t k).present ≡ false
unfolding empty_pml4_entry free_entry
empty_pml4_entry-absent t k m = elim (Bool-cases (m.tables t k).present) [
  | inl p ↦ rw p (clear_present-absent t k (vm_empty_pdp (m.tables t k).addr m))
  | inr p ↦ rw p p
]

vm_empty_userland-absent :
    (root i : ℕ) (m : Memory) → i < 256 → ((vm_empty_userland root m).tables root i).present ≡ false
unfolding vm_empty_userland
vm_empty_userland-absent root i m lt =
    for_entries-absent (empty_pml4_entry root) root 256 0 i m (empty_pml4_entry-Fades root)
      (empty_pml4_entry-absent root) (omega arith) (omega arith)

-- After `vm_empty_userland` no address of the user's half is mapped, whatever the tables were.
pub vm_empty_userland-unmaps :
    (root va : ℕ) (m : Memory)
    → pml4_idx va < 256
    → vm_is_mapped root va (vm_empty_userland root m).tables ≡ false
unfolding vm_is_mapped
vm_empty_userland-unmaps root va m lt = rw (vm_empty_userland-absent root (pml4_idx va) m lt) refl
