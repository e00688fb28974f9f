-- ===== src/Paging/Write.antt =====
-- What the processor finds behind a page, kernel/k_memory.c, once the entry of one page is written.
use yomotsu.Base.{
  ℕ, ◌≡◌, ◌≢◌, inl, inr, refl, ap, Bool, true, false, ◌&&◌, arith, ◌==◌, if◌then◌else◌, ℕ_discrete,
  Bool-cases, ◌∙◌, sym, subst,
}
use yomotsu.Paging.{
  Entry, empty, Memory, set_entry, Attr, write_page, pml4_idx, pdp_idx, pd_idx, pde_for,
}
use yomotsu.Paging.Tree.{
  Owner, IsTree, leaf, not_root_pdp, not_root_pd, not_pdp_pd, same_entry, pd_inj,
}

-- Whether the entry is that of the page of `vma`.
abbrev pub is_page : ℕ → ℕ → ℕ → ℕ → Bool
is_page vma i j n = (i == pml4_idx vma) && (j == pdp_idx vma) && (n == pd_idx vma)

-- The tables on the way to a page are there.
pub record Way (r t3 t2 vma : ℕ) (tables : ℕ → ℕ → Entry) : Type 0 where
  pub on4 : (tables r (pml4_idx vma)).present ≡ true
  pub addr4 : (tables r (pml4_idx vma)).addr ≡ t3
  pub on3 : (tables t3 (pdp_idx vma)).present ≡ true
  pub addr3 : (tables t3 (pdp_idx vma)).addr ≡ t2

-- The tables are `m.tables` with the entry `k` of the third table `t2` set to `e`. Entries of the
-- tables on the way to it lead where they led.
pub record Writes (r t3 t2 k : ℕ) (e : Entry) (m : Memory) (written : ℕ → ℕ → Entry) : Type 0 where
  pub upper :
      (u j : ℕ)
      → u ≢ t2
      → ((written u j).present ≡ (m.tables u j).present)
        × ((written u j).addr ≡ (m.tables u j).addr)
  pub lower :
      (u n : ℕ) → u ≢ r → u ≢ t3 → written u n ≡ (if (u == t2) && (n == k) then e else m.tables u n)

module _ {r : ℕ} {own : ℕ → Owner} {m : Memory} (v : IsTree r own m) (vma : ℕ) (t3 t2 : ℕ)
    (off : pml4_idx vma ≢ 256) (w : Way r t3 t2 vma m.tables) where
  own3 : own t3 ≡ Owner.pdp (pml4_idx vma)
  own3 = subst (λ t. own t ≡ Owner.pdp (pml4_idx vma)) w.addr4 (v.at_pdp (pml4_idx vma) off w.on4)

  own2 : own t2 ≡ Owner.pd (pml4_idx vma) (pdp_idx vma)
  own2 =
      subst (λ t. own t ≡ Owner.pd (pml4_idx vma) (pdp_idx vma)) w.addr3
        (v.at_pd (pml4_idx vma) (pdp_idx vma) t3 own3 w.on3)

  -- Above the third level, `write_page` keeps what leads on.
  write_page-upper :
      (pma : ℕ) (attr : Attr) (u j : ℕ)
      → u ≢ t2
      → ((write_page r t3 t2 vma pma attr m.tables u j).present ≡ (m.tables u j).present)
        × ((write_page r t3 t2 vma pma attr m.tables u j).addr ≡ (m.tables u j).addr)
  unfolding write_page set_entry
  write_page-upper pma attr u j ne =
      let d = not_root_pdp own v.at_root own3 in
      elim (same_entry u t3 j (pdp_idx vma)) [
        | inl (a, b) ↦ rw (a, b) (ground arith, ground arith)
        | inr n ↦ elim (same_entry u r j (pml4_idx vma)) [
          | inl (a, b) ↦ rw (a, b) (ground arith, ground arith)
          | inr n' ↦ (ground arith, ground arith)
        ]
      ]

  -- At the third level it writes the one entry.
  write_page-lower :
      (pma : ℕ) (attr : Attr) (u k : ℕ)
      → u ≢ r
      → u ≢ t3
      → write_page r t3 t2 vma pma attr m.tables u k
        ≡ (if (u == t2) && (k == pd_idx vma) then pde_for pma attr empty else m.tables u k)
  unfolding write_page set_entry
  write_page-lower pma attr u k a b = ground arith

  pub write_page-Writes :
      (pma : ℕ) (attr : Attr)
      → Writes r t3 t2
          (pd_idx vma)
          (pde_for pma attr empty)
          m
          (write_page r t3 t2 vma pma attr m.tables)
  write_page-Writes pma attr = record {
    upper = write_page-upper pma attr;
    lower = write_page-lower pma attr;
  }

  pub set_entry-Writes :
      (e : Entry) → Writes r t3 t2 (pd_idx vma) e m (set_entry t2 (pd_idx vma) e m.tables)
  unfolding set_entry
  set_entry-Writes e = record {
    upper = λ u j ne. (ground arith, ground arith);
    lower = λ u n a b. refl;
  }

  module _ {e : Entry} {written : ℕ → ℕ → Entry} (g : Writes r t3 t2 (pd_idx vma) e m written) where
    pub IsTree-written : IsTree r own (record m { tables = written })
    IsTree-written = record {
      at_root = v.at_root;
      at_pdp = λ i ne on.
          let up = g.upper r i (not_root_pd own v.at_root own2) in
          rw up.1 (v.at_pdp i ne (sym up.0 ∙ on));
      at_pd = λ i j t e on.
          let up = g.upper t j (not_pdp_pd own e own2) in rw up.1 (v.at_pd i j t e (sym up.0 ∙ on));
      in_use = v.in_use;
    }

    leaf-written_self : leaf r (pml4_idx vma) (pdp_idx vma) (pd_idx vma) (written) ≡ e
    unfolding leaf
    leaf-written_self =
        let up = g.upper r (pml4_idx vma) (not_root_pd own v.at_root own2) in
        let up' = g.upper t3 (pdp_idx vma) (not_pdp_pd own own3 own2) in
        let low =
          g.lower t2 (pd_idx vma) (λ s. not_root_pd own v.at_root own2 (sym s))
            (λ s. not_pdp_pd own own3 own2 (sym s)) in
        rw (up.0, up.1, w.on4, w.addr4, up'.0, up'.1, w.on3, w.addr3, low) (ground arith)

    leaf-written_ne :
        (i j n : ℕ)
        → i ≢ 256
        → is_page vma i j n ≡ false
        → leaf r i j n (written) ≡ leaf r i j n m.tables
    unfolding leaf
    leaf-written_ne i j n ne other =
        let up = g.upper r i (not_root_pd own v.at_root own2) in
        elim (Bool-cases (m.tables r i).present) [
          | inr dark ↦ rw (up.0, dark) refl
          | inl on ↦
              let a = v.at_pdp i ne on in
              let up' = g.upper (m.tables r i).addr j (not_pdp_pd own a own2) in
              elim (Bool-cases (m.tables (m.tables r i).addr j).present) [
                | inr dark ↦ rw (up.0, up.1, on, up'.0, dark) refl
                | inl on' ↦
                    let b = v.at_pd i j _ a on' in
                    let low =
                      g.lower (m.tables (m.tables r i).addr j).addr n
                        (λ s. not_root_pd own v.at_root b (sym s))
                        (λ s. not_pdp_pd own own3 b (sym s)) in
                    rw (up.0, up.1, on, up'.0, up'.1, on', low)
                      (elim (ℕ_discrete (m.tables (m.tables r i).addr j).addr t2) [
                        | yes same ↦
                            let at = pd_inj (sym b ∙ ap own same ∙ own2) in
                            let i_is : i ≡ pml4_idx vma = at.0 in
                            let j_is : j ≡ pdp_idx vma = at.1 in ground arith
                        | no d ↦ ground arith
                      ])
              ]
        ]

    pub leaf-written :
        (i j n : ℕ)
        → i ≢ 256
        → leaf r i j n (written) ≡ (if is_page vma i j n then e else leaf r i j n m.tables)
    leaf-written i j n ne = elim (Bool-cases (is_page vma i j n)) [
      | inl yes_it ↦
          let i_is : i ≡ pml4_idx vma = ground arith in
          let j_is : j ≡ pdp_idx vma = ground arith in
          let n_is : n ≡ pd_idx vma = ground arith in
          rw yes_it (rw (i_is, j_is, n_is) leaf-written_self)
      | inr other ↦ rw other (leaf-written_ne i j n ne other)
    ]
