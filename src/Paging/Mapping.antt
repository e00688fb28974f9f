-- ===== src/Paging/Mapping.antt =====
-- `vm_map_page` and `vm_unmap_page` of kernel/k_memory.c, as what they do to the map from pages to
-- entries that the tables stand for.
use yomotsu.Base.{
  ℕ, ◌*◌, ◌/◌, ◌^◌, ◌≡◌, ◌≢◌, ◌⊎◌, inl, inr, refl, ap, true, false, not, ◌&&◌, arith, ◌==◌,
  if◌then◌else◌, ℕ_discrete, Bool-cases, ◌∙◌, update, sym, subst,
}
use yomotsu.Frames.{Alloc, page_size, pma_alloc}
use yomotsu.Frames.Single.{pma_alloc_lem}
use yomotsu.Paging.{
  Entry, empty, Memory, Attr, Ensured, Mapped, write_page, installed, ensure_table, map_entry,
  map_pd, map_pdp, vm_map_page, pml4_idx, pdp_idx, pd_idx, pde_for,
}
use yomotsu.Paging.Tree.{
  Owner, IsTree, Grafted, leaf, place, install-Grafted, graft_root-IsTree, graft_pdp-IsTree,
  not_free_root, not_free_pdp, not_root_pdp,
}
use yomotsu.Paging.Leaf.{leaf-graft_root, leaf-graft_pdp}
use yomotsu.Paging.Write.{Way, is_page, write_page-Writes, IsTree-written, leaf-written}

-- The tables of `r` are a tree.
abbrev pub Tree : ℕ → Memory → Type 0
Tree r m = (own : ℕ → Owner) × IsTree r own m

-- Every page has the entry that it had.
abbrev pub SamePages : ℕ → Memory → Memory → Type 0
SamePages r m m' = (i j n : ℕ) → i ≢ 256 → leaf r i j n m'.tables ≡ leaf r i j n m.tables

-- The memory `m'` is `m` with the entry `i` of the table `t` made present.
pub record Readied (r : ℕ) (own : ℕ → Owner) (t i : ℕ) (m m' : Memory) : Type 0 where
  pub own' : ℕ → Owner
  pub tree : IsTree r own' m'
  pub pages : SamePages r m m'
  pub locked : m'.frames.locked ≡ m.frames.locked
  pub on : (m'.tables t i).present ≡ true
  pub rest : (u j : ℕ) → own u ≢ Owner.free → (u ≢ t) ⊎ (j ≢ i) → m'.tables u j ≡ m.tables u j

abbrev pub Stage : ℕ → (ℕ → Owner) → ℕ → ℕ → Memory → Ensured → Type 0
Stage r own t i m Ensured.blocked = m.frames.locked ≡ true
Stage r own t i m (Ensured.no_frame m') = Tree r m' × SamePages r m m'
Stage r own t i m (Ensured.ready m') = Readied r own t i m m'

-- Another count of frames in use keeps a tree.
IsTree-more :
    {r : ℕ} {own : ℕ → Owner} {m : Memory} (k : ℕ)
    → IsTree r own m
    → IsTree r own (record m { frames = record m.frames { map = update m.frames.map k 1 } })
IsTree-more k v = record {
  at_root = v.at_root;
  at_pdp = v.at_pdp;
  at_pd = v.at_pd;
  in_use = λ t used. let was = v.in_use t used in ground arith;
}

module _ {r : ℕ} {own : ℕ → Owner} {m : Memory} (t i : ℕ) (v : IsTree r own m)
    (used : own t ≢ Owner.free)
    (grow : (k : ℕ) (m' : Memory)
      → (m.tables t i).present ≡ false
      → Grafted own t i k m m'
      → Readied r own t i m m') where
  installed-Stage :
      (m.tables t i).present ≡ false → Stage r own t i m (installed t i m (pma_alloc m.frames))
  unfolding installed
  installed-Stage off = elim (pma_alloc_lem m.frames) [
    | inl (k, first, e) ↦ elim (ℕ_discrete k 0) [
      | yes z ↦ rw (e, z) ((own, IsTree-more 0 v), λ i j n ne. refl)
      | no nz ↦
          let some_addr : (k * page_size == 0) ≡ false = ground arith in
          rw (e, installed, some_addr)
            (grow k _ off (
              install-Grafted t i k v
                (record { below = first.0; was_free = first.1; map_is = refl; locked_is = refl })
                used))
    ]
    | inr (full, e) ↦ elim (Bool-cases m.frames.locked) [
      | inl held ↦ rw (e, held) refl
      | inr unheld ↦
          let done : pma_alloc m.frames ≡ Alloc.returned 0 m.frames =
            e ∙ ap (λ b. if b then Alloc.blocked else Alloc.returned 0 m.frames) unheld in
          rw done ((own, v), λ i j n ne. refl)
    ]
  ]

  pub ensure_table-Stage : Stage r own t i m (ensure_table t i m)
  unfolding ensure_table
  ensure_table-Stage = elim (Bool-cases (m.tables t i).present) [
    | inl on ↦ rw on (record {
      own' = own;
      tree = v;
      pages = λ i j n ne. refl;
      locked = refl;
      on = on;
      rest = λ u j f d. refl;
    })
    | inr off ↦ rw off (installed-Stage off)
  ]

-- The first table, behind the entry `i` of the root.
grow_root :
    {r : ℕ} {own : ℕ → Owner} {m : Memory} (i k : ℕ) (m' : Memory)
    → IsTree r own m
    → (m.tables r i).present ≡ false
    → Grafted own r i k m m'
    → Readied r own r i m m'
grow_root {own = own} i k m' v off g = record {
  own' = place k (Owner.pdp i) own;
  tree = graft_root-IsTree i k v g;
  pages = leaf-graft_root i k v off g;
  locked = g.fresh.locked_is;
  on = ap (λ e. e.present) g.entry;
  rest = g.rest;
}

grow_pdp :
    {r : ℕ} {own : ℕ → Owner} {m : Memory} (i j t k : ℕ) (m' : Memory)
    → IsTree r own m
    → own t ≡ Owner.pdp i
    → (m.tables t j).present ≡ false
    → Grafted own t j k m m'
    → Readied r own t j m m'
grow_pdp {own = own} i j t k m' v here off g = record {
  own' = place k (Owner.pd i j) own;
  tree = graft_pdp-IsTree i j t k v here g;
  pages = leaf-graft_pdp i j t k v here off g;
  locked = g.fresh.locked_is;
  on = ap (λ e. e.present) g.entry;
  rest = g.rest;
}

-- The entry of the page of `vma`.
abbrev pub page_entry : ℕ → ℕ → Memory → Entry
page_entry r vma m = leaf r (pml4_idx vma) (pdp_idx vma) (pd_idx vma) m.tables

-- What the mapping of a page does: it writes the entry of that page, if it is not yet mapped.
abbrev pub Maps : ℕ → ℕ → ℕ → Attr → Memory → Memory → Type 0
Maps r vma pma attr m m' =
    (i j n : ℕ)
    → i ≢ 256
    → leaf r i j n m'.tables ≡ (
        if is_page vma i j n && not (page_entry r vma m).present
        then pde_for pma attr empty
        else leaf r i j n m.tables)

abbrev pub Outcome : ℕ → ℕ → ℕ → Attr → Memory → Mapped → Type 0
Outcome r vma pma attr m Mapped.blocked = m.frames.locked ≡ true
Outcome r vma pma attr m Mapped.panicked =
    ((page_entry r vma m).present ≡ true) × ((page_entry r vma m).addr ≢ pma / 2 ^ 12)
Outcome r vma pma attr m (Mapped.null m') = Tree r m' × SamePages r m m'
Outcome r vma pma attr m (Mapped.mapped m') =
    Tree r m'
    × Maps r vma pma attr m m'
    × ((page_entry r vma m).present ≡ true → (page_entry r vma m).addr ≡ pma / 2 ^ 12)

module _ {r : ℕ} {own : ℕ → Owner} {m : Memory} (v : IsTree r own m) (vma pma : ℕ) (attr : Attr)
    (off : pml4_idx vma ≢ 256) where
  abbrev t3 : ℕ
  t3 = (m.tables r (pml4_idx vma)).addr

  abbrev t2 : ℕ
  t2 = (m.tables t3 (pdp_idx vma)).addr

  module _ (on4 : (m.tables r (pml4_idx vma)).present ≡ true)
      (on3 : (m.tables t3 (pdp_idx vma)).present ≡ true) where
    page_entry-eq : page_entry r vma m ≡ m.tables t2 (pd_idx vma)
    unfolding leaf
    page_entry-eq = rw (on4, on3) refl

    write_page-Maps :
        (page_entry r vma m).present ≡ false
        → Outcome r vma pma attr m
            (Mapped.mapped (record m { tables = write_page r t3 t2 vma pma attr m.tables }))
    write_page-Maps dark =
        let w : Way r t3 t2 vma m.tables = record {
          on4 = on4;
          addr4 = refl;
          on3 = on3;
          addr3 = refl;
        } in
        let g = write_page-Writes v vma t3 t2 off w pma attr in
        (
          (own, IsTree-written v vma t3 t2 off w g),
          (λ i j n ne. leaf-written v vma t3 t2 off w g i j n ne ∙ rw dark (ground arith)),
          λ on. absurd (ground arith),
        )

    map_entry-present :
        (page_entry r vma m).present ≡ true
        → map_entry r vma pma attr m
          ≡ (if pma / 2 ^ 12 == (page_entry r vma m).addr then Mapped.mapped m else Mapped.panicked)
    unfolding map_entry
    map_entry-present on =
        let on2 = ap (λ e. e.present) (sym page_entry-eq) ∙ on in rw (on2, page_entry-eq) refl

    map_entry-Outcome : Outcome r vma pma attr m (map_entry r vma pma attr m)
    unfolding map_entry
    map_entry-Outcome = elim (Bool-cases (page_entry r vma m).present) [
      | inl on ↦ elim (ℕ_discrete (pma / 2 ^ 12) (page_entry r vma m).addr) [
        | yes e ↦
            let is : map_entry r vma pma attr m ≡ Mapped.mapped m =
              map_entry-present on ∙ ground arith in
            rw is ((own, v), (λ i j n ne. rw on (ground arith)), λ o. sym e)
        | no d ↦
            let is : map_entry r vma pma attr m ≡ Mapped.panicked =
              map_entry-present on ∙ ground arith in
            rw is (on, λ e. d (sym e))
      ]
      | inr dark ↦
          let off_too = ap (λ e. e.present) (sym page_entry-eq) ∙ dark in
          rw off_too (write_page-Maps dark)
    ]

-- The three stages.
Outcome-same :
    (r vma pma : ℕ) (attr : Attr) (m m' : Memory) (x : Mapped)
    → pml4_idx vma ≢ 256
    → SamePages r m m'
    → m'.frames.locked ≡ m.frames.locked
    → Outcome r vma pma attr m' x
    → Outcome r vma pma attr m x
Outcome-same r vma pma attr m m' Mapped.blocked off same l o = sym l ∙ o
Outcome-same r vma pma attr m m' Mapped.panicked off same l o =
    let e = same (pml4_idx vma) (pdp_idx vma) (pd_idx vma) off in rw (← e) o
Outcome-same r vma pma attr m m' (Mapped.null m2) off same l o =
    (o.0, λ i j n ne. o.1 i j n ne ∙ same i j n ne)
Outcome-same r vma pma attr m m' (Mapped.mapped m2) off same l o =
    let e = same (pml4_idx vma) (pdp_idx vma) (pd_idx vma) off in
    (o.0, (λ i j n ne. o.1 i j n ne ∙ rw (e, same i j n ne) refl), rw (← e) o.2)

map_pd-Outcome :
    (r vma pma : ℕ) (attr : Attr) (own : ℕ → Owner) (m : Memory) (x : Ensured)
    → pml4_idx vma ≢ 256
    → IsTree r own m
    → (m.tables r (pml4_idx vma)).present ≡ true
    → Stage r own (m.tables r (pml4_idx vma)).addr (pdp_idx vma) m x
    → Outcome r vma pma attr m (map_pd r vma pma attr x)
unfolding map_pd
map_pd-Outcome r vma pma attr own m Ensured.blocked off v on s = s
map_pd-Outcome r vma pma attr own m (Ensured.no_frame m') off v on s = s
map_pd-Outcome r vma pma attr own m (Ensured.ready m') off v on s =
    let above =
      s.rest r (pml4_idx vma) (not_free_root v.at_root)
        (inl (not_root_pdp own v.at_root (v.at_pdp (pml4_idx vma) off on))) in
    Outcome-same r vma pma attr m m' _ off s.pages s.locked (
      map_entry-Outcome s.tree vma pma attr off (rw above on) (
        subst (λ t. (m'.tables t (pdp_idx vma)).present ≡ true) (sym (ap (λ e. e.addr) above))
          s.on))

map_pdp-Outcome :
    (r vma pma : ℕ) (attr : Attr) (own : ℕ → Owner) (m : Memory) (x : Ensured)
    → pml4_idx vma ≢ 256
    → IsTree r own m
    → Stage r own r (pml4_idx vma) m x
    → Outcome r vma pma attr m (map_pdp r vma pma attr x)
unfolding map_pdp
map_pdp-Outcome r vma pma attr own m Ensured.blocked off v s = s
map_pdp-Outcome r vma pma attr own m (Ensured.no_frame m') off v s = s
map_pdp-Outcome r vma pma attr own m (Ensured.ready m') off v s =
    let here = s.tree.at_pdp (pml4_idx vma) off s.on in
    let t = (m'.tables r (pml4_idx vma)).addr in
    Outcome-same r vma pma attr m m' _ off s.pages s.locked (
      map_pd-Outcome r vma pma attr s.own' m' _ off s.tree s.on (
        ensure_table-Stage t (pdp_idx vma) s.tree (not_free_pdp here)
          (λ k m2 dark g. grow_pdp (pml4_idx vma) (pdp_idx vma) t k m2 s.tree here dark g)))

-- In a tree of tables, for an address outside of the window in which the tables are seen,
-- `vm_map_page` keeps the tree and does one of four things: it waits for the lock of the frames,
-- which is then held; it panics, the page being mapped to another frame; it returns the null pointer,
-- every page having the entry that it had; or it returns the address, the page has the entry of the
-- frame and the attributes, unless it was mapped to that frame already, and no other page's entry is
-- changed.
pub vm_map_page-refines :
    {r : ℕ} {own : ℕ → Owner} {m : Memory} (vma pma : ℕ) (attr : Attr)
    → IsTree r own m
    → pml4_idx vma ≢ 256
    → Outcome r vma pma attr m (vm_map_page r vma pma attr m)
unfolding vm_map_page
vm_map_page-refines {r} {own} {m} vma pma attr v off =
    map_pdp-Outcome r vma pma attr own m _ off v (
      ensure_table-Stage r (pml4_idx vma) v (not_free_root v.at_root)
        (λ k m' dark g. grow_root (pml4_idx vma) k m' v dark g))
