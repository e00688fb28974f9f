-- ===== src/Paging/Translate.antt =====
-- Addresses through the tables, kernel/k_memory.c: `vm_get_pma_by_vma`, `vm_is_mapped` and
-- `vm_check_attr` around `vm_map_page` and `vm_unmap_page`.
use yomotsu.Base.{
  ℕ, ◌+◌, ◌*◌, ◌/◌, ◌%◌, ◌^◌, ◌<◌, ◌≡◌, ◌≢◌, ◌⊎◌, inl, inr, refl, ap, Bool, true, false, ◌&&◌,
  arith, if◌then◌else◌, Option, none, some, Bool-cases, some_inj, ◌∙◌, sym, subst,
}
use yomotsu.Frames.{page_size}
use yomotsu.Paging.{
  Entry, empty, Memory, Attr, Mapped, vm_map_page, pml4_idx, pdp_idx, pd_idx, page_offset, pde_for,
  vm_get_pma_by_vma, vm_unmap_page, vm_is_mapped, address_in, get_pde_by_vma, set_entry,
  vm_check_attr, common, get_attrs_by_vma,
}
use yomotsu.Paging.Tree.{Owner, IsTree, leaf}
use yomotsu.Paging.Write.{Way, is_page, set_entry-Writes, IsTree-written, leaf-written}
use yomotsu.Paging.Mapping.{Outcome, page_entry, vm_map_page-refines}

-- The address that an entry gives to `va`, 0 for none.
abbrev pub translated : Entry → ℕ → ℕ
translated e va = if e.present then address_in e va else 0

pub vm_get_pma_by_vma-leaf :
    (r va : ℕ) (m : Memory) → vm_get_pma_by_vma r va m.tables ≡ translated (page_entry r va m) va
unfolding vm_get_pma_by_vma get_pde_by_vma leaf
vm_get_pma_by_vma-leaf r va m = ground arith

pub vm_is_mapped-leaf :
    (r va : ℕ) (m : Memory) → vm_is_mapped r va m.tables ≡ (page_entry r va m).present
unfolding vm_is_mapped leaf
vm_is_mapped-leaf r va m = ground arith

-- The two addresses lie in one page.
abbrev pub same_page : ℕ → ℕ → Bool
same_page vma va = is_page vma (pml4_idx va) (pdp_idx va) (pd_idx va)

page_entry-same :
    (r vma va : ℕ) (m : Memory) → same_page vma va ≡ true → page_entry r va m ≡ page_entry r vma m
page_entry-same r vma va m same =
    let first : pml4_idx va ≡ pml4_idx vma = ground arith in
    let second : pdp_idx va ≡ pdp_idx vma = ground arith in
    let third : pd_idx va ≡ pd_idx vma = ground arith in rw (first, second, third) refl

-- After `vm_map_page` returned the address `vma`, for a frame at a page boundary below 2 ^ 52, every
-- address of its page leads to its offset in the frame at `pma`, and every address of another page,
-- outside of the window in which the tables are seen, leads where it led before.
pub vm_map_page-translates :
    {r : ℕ} {own : ℕ → Owner} {m m' : Memory} (vma pma va : ℕ) (attr : Attr)
    → IsTree r own m
    → pml4_idx vma ≢ 256
    → pml4_idx va ≢ 256
    → pma % page_size ≡ 0
    → pma < 2 ^ 52
    → vm_map_page r vma pma attr m ≡ Mapped.mapped m'
    → vm_get_pma_by_vma r va m'.tables
      ≡ (if same_page vma va then pma + page_offset va else vm_get_pma_by_vma r va m.tables)
vm_map_page-translates {r} {own} {m} {m'} vma pma va attr v off off' aligned small e =
    let o = subst (Outcome r vma pma attr m) e (vm_map_page-refines vma pma attr v off) in
    let is = o.1 (pml4_idx va) (pdp_idx va) (pd_idx va) off' in
    let frame : pma / 2 ^ 12 * 2 ^ 12 ≡ pma = omega arith in
    let field : pma / 2 ^ 12 % 2 ^ 40 ≡ pma / 2 ^ 12 = omega arith in
    elim (Bool-cases (same_page vma va)) [
      | inr other ↦
          rw (vm_get_pma_by_vma-leaf r va m', vm_get_pma_by_vma-leaf r va m, is, other) refl
      | inl same ↦
          let one : page_entry r va m ≡ page_entry r vma m = page_entry-same r vma va m same in
          elim (Bool-cases (page_entry r vma m).present) [
            | inr dark ↦
                rw (vm_get_pma_by_vma-leaf r va m', is, same, dark)
                  (ap (λ x. x * 2 ^ 12 + page_offset va) field ∙ ap (λ x. x + page_offset va) frame)
            | inl on ↦
                let addr = o.2 on in
                rw (vm_get_pma_by_vma-leaf r va m', is, same, on, one, on, addr)
                  (ap (λ x. x + page_offset va) frame)
          ]
    ]

pub vm_check_attr-leaf :
    (r va : ℕ) (a : Attr) (m : Memory)
    → (page_entry r va m).present ≡ true
    → vm_check_attr r va a m.tables ≡ some (common a (get_attrs_by_vma (page_entry r va m)))
unfolding vm_check_attr get_pde_by_vma leaf
vm_check_attr-leaf r va a m on = ground arith

-- After `vm_map_page` returned the address of a page that was not mapped, `vm_check_attr` of any
-- address in the page gives, of the attributes that it is asked for, those that the page was mapped
-- with, and that it is present.
pub vm_map_page-grants :
    {r : ℕ} {own : ℕ → Owner} {m m' : Memory} (vma pma va : ℕ) (attr asked : Attr)
    → IsTree r own m
    → pml4_idx vma ≢ 256
    → (page_entry r vma m).present ≡ false
    → same_page vma va ≡ true
    → vm_map_page r vma pma attr m ≡ Mapped.mapped m'
    → vm_check_attr r va asked m'.tables ≡ some (common asked (record attr { present = true }))
unfolding common get_attrs_by_vma
vm_map_page-grants {r} {own} {m} {m'} vma pma va attr asked v off dark same e =
    let o = subst (Outcome r vma pma attr m) e (vm_map_page-refines vma pma attr v off) in
    let first : pml4_idx va ≡ pml4_idx vma = ground arith in
    let is = o.1 (pml4_idx va) (pdp_idx va) (pd_idx va) (rw first off) in
    let now : page_entry r va m' ≡ pde_for pma attr empty = is ∙ rw (same, dark) refl in
    vm_check_attr-leaf r va asked m' (ap (λ e. e.present) now) ∙ rw now (ground arith)

mapped_way :
    (r va : ℕ) (m : Memory)
    → vm_is_mapped r va m.tables ≡ true
    → ((m.tables r (pml4_idx va)).present ≡ true)
      × ((m.tables (m.tables r (pml4_idx va)).addr (pdp_idx va)).present ≡ true)
      × ((m.tables (m.tables (m.tables r (pml4_idx va)).addr (pdp_idx va)).addr (pd_idx va)).present
          ≡ true)
unfolding vm_is_mapped
mapped_way r va m on = ground arith

vm_unmap_page-unmapped :
    (r va : ℕ) (m : Memory) → vm_is_mapped r va m.tables ≡ false → vm_unmap_page r va m ≡ none
unfolding vm_is_mapped vm_unmap_page
vm_unmap_page-unmapped r va m dark = ground arith

-- What `vm_unmap_page` leaves: the page has no entry, and all others are as they were. It panics
-- exactly if the page is not mapped.
pub vm_unmap_page-refines :
    {r : ℕ} {own : ℕ → Owner} {m : Memory} (vma : ℕ)
    → IsTree r own m
    → pml4_idx vma ≢ 256
    → ((vm_unmap_page r vma m ≡ none) × (vm_is_mapped r vma m.tables ≡ false))
      ⊎ ((m' : Memory) × (vm_unmap_page r vma m ≡ some ((page_entry r vma m).addr * 2 ^ 12, m'))
          × (vm_is_mapped r vma m.tables ≡ true)
          × IsTree r own m'
          × (m'.frames ≡ m.frames)
          × ((i j n : ℕ)
              → i ≢ 256
              → leaf r i j n m'.tables
                ≡ (if is_page vma i j n then empty else leaf r i j n m.tables)))
unfolding vm_unmap_page set_entry leaf
vm_unmap_page-refines {r} {own} {m} vma v off = elim (Bool-cases (vm_is_mapped r vma m.tables)) [
  | inr dark ↦ inl (vm_unmap_page-unmapped r vma m dark, dark)
  | inl on ↦
      let p = mapped_way r vma m on in
      let t3 = (m.tables r (pml4_idx vma)).addr in
      let t2 = (m.tables t3 (pdp_idx vma)).addr in
      let w : Way r t3 t2 vma m.tables = record {
        on4 = p.0;
        addr4 = refl;
        on3 = p.1;
        addr3 = refl;
      } in
      let g = set_entry-Writes v vma t3 t2 off w empty in
      inr (
        record m { tables = set_entry t2 (pd_idx vma) empty m.tables },
        rw (p.0, p.1, p.2) refl,
        on,
        IsTree-written v vma t3 t2 off w g,
        refl,
        leaf-written v vma t3 t2 off w g,
      )
]

-- The page that `vm_map_page` mapped, where none was mapped, is unmapped again: `vm_unmap_page`
-- returns the frame, and every address leads where it led before.
pub vm_unmap_page-vm_map_page :
    {r : ℕ} {own : ℕ → Owner} {m m' : Memory} (vma pma : ℕ) (attr : Attr)
    → IsTree r own m
    → pml4_idx vma ≢ 256
    → pma % page_size ≡ 0
    → pma < 2 ^ 52
    → vm_is_mapped r vma m.tables ≡ false
    → vm_map_page r vma pma attr m ≡ Mapped.mapped m'
    → (m2 : Memory) × (vm_unmap_page r vma m' ≡ some (pma, m2))
      × ((va : ℕ)
          → pml4_idx va ≢ 256
          → vm_get_pma_by_vma r va m2.tables ≡ vm_get_pma_by_vma r va m.tables)
vm_unmap_page-vm_map_page {r} {own} {m} {m'} vma pma attr v off aligned small dark e =
    let o = subst (Outcome r vma pma attr m) e (vm_map_page-refines vma pma attr v off) in
    let unmapped = sym (vm_is_mapped-leaf r vma m) ∙ dark in
    let now = o.1 (pml4_idx vma) (pdp_idx vma) (pd_idx vma) off in
    let is : page_entry r vma m' ≡ pde_for pma attr empty = now ∙ rw unmapped (ground arith) in
    let frame : pma / 2 ^ 12 % 2 ^ 40 * 2 ^ 12 ≡ pma = omega arith in
    elim (vm_unmap_page-refines vma o.0.1 off) [
      | inl (n, not_mapped) ↦
          let mapped_now = vm_is_mapped-leaf r vma m' ∙ ap (λ e. e.present) is in
          absurd (ground arith)
      | inr (m2, u, on, tree, f, pages) ↦ (
        m2,
        u ∙ rw is (ap (λ x. some (x, m2)) frame),
        λ va off'.
            rw
              (
                vm_get_pma_by_vma-leaf r va m2,
                vm_get_pma_by_vma-leaf r va m,
                pages (pml4_idx va) (pdp_idx va) (pd_idx va) off',
                o.1 (pml4_idx va) (pdp_idx va) (pd_idx va) off',
                unmapped,
              )
              (elim (Bool-cases (same_page vma va)) [
                | inr other ↦ rw other refl
                | inl same ↦
                    let none_yet : (page_entry r va m).present ≡ false =
                      rw (page_entry-same r vma va m same) unmapped in
                    rw (same, none_yet) refl
              ]),
      )
    ]

-- The walk for an address of the same page.
module _ (root va i : ℕ) (tables : ℕ → ℕ → Entry) (within : page_offset va + i < page_size) where
  get_pde_by_vma-within : get_pde_by_vma root (va + i) tables ≡ get_pde_by_vma root va tables
  unfolding get_pde_by_vma
  get_pde_by_vma-within =
      let first : pml4_idx (va + i) ≡ pml4_idx va = omega arith in
      let second : pdp_idx (va + i) ≡ pdp_idx va = omega arith in
      let third : pd_idx (va + i) ≡ pd_idx va = omega arith in rw (first, second, third) refl

  abbrev pma_at : ℕ → Option (ℕ × ℕ) → ℕ
  pma_at x none = 0
  pma_at x (some (t, k)) = if (tables t k).present then address_in (tables t k) x else 0

  abbrev attr_at : Attr → Option (ℕ × ℕ) → Option Attr
  attr_at asked none = none
  attr_at asked (some (t, k)) = some (common asked (get_attrs_by_vma (tables t k)))

  pma_at-within :
      (o : Option (ℕ × ℕ)) (asked a : Attr)
      → attr_at asked o ≡ some a
      → a.present ≡ true
      → pma_at (va + i) o ≡ pma_at va o + i
  unfolding common get_attrs_by_vma
  pma_at-within none asked a e on = absurd (ground arith)
  pma_at-within (some (t, k)) asked a e on =
      let offset : page_offset (va + i) ≡ page_offset va + i = omega arith in
      let there : asked.present && (tables t k).present ≡ true =
        ap (λ x. x.present) (some_inj e) ∙ on in
      let present : (tables t k).present ≡ true = ground arith in rw (present, offset) (omega arith)

  -- In a page that is present, addresses follow one another as they do in its frame.
  pub vm_get_pma_by_vma-within :
      (asked a : Attr)
      → vm_check_attr root va asked tables ≡ some a
      → a.present ≡ true
      → vm_get_pma_by_vma root (va + i) tables ≡ vm_get_pma_by_vma root va tables + i
  unfolding vm_get_pma_by_vma vm_check_attr
  vm_get_pma_by_vma-within asked a e on =
      ap (pma_at (va + i)) get_pde_by_vma-within
      ∙ pma_at-within (get_pde_by_vma root va tables) asked a e on
