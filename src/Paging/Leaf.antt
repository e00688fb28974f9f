-- ===== src/Paging/Leaf.antt =====
-- What the processor finds behind a page, kernel/k_memory.c: a fresh table leaves it as it was.
use yomotsu.Base.{ℕ, ◌≡◌, ◌≢◌, inl, inr, refl, ap, false, ℕ_discrete, Bool-cases, sym}
use yomotsu.Paging.{Memory}
use yomotsu.Paging.Tree.{
  Owner, IsTree, Grafted, leaf, not_free_root, not_free_pdp, not_free_pd, not_root_pdp, not_root_pd,
  not_pdp_pd, same_entry,
}

module _ {r : ℕ} {own : ℕ → Owner} {m m' : Memory} (i0 k : ℕ) (v : IsTree r own m)
    (off : (m.tables r i0).present ≡ false) (g : Grafted own r i0 k m m') where
  pub leaf-graft_root : (i j n : ℕ) → i ≢ 256 → leaf r i j n m'.tables ≡ leaf r i j n m.tables
  unfolding leaf
  leaf-graft_root i j n ne = elim (ℕ_discrete i i0) [
    | yes e ↦
        let none_yet : (m.tables r i).present ≡ false = rw e off in
        let dark = ap (λ e. e.present) (g.new j) in
        rw (none_yet, ap (m'.tables r) e, g.entry, dark) refl
    | no d ↦
        let same = g.rest r i (not_free_root v.at_root) (inr d) in
        elim (Bool-cases (m.tables r i).present) [
          | inr n ↦ rw (same, n) refl
          | inl on ↦
              let a = v.at_pdp i ne on in
              let next =
                g.rest (m.tables r i).addr j (not_free_pdp a)
                  (inl (λ s. not_root_pdp own v.at_root a (sym s))) in
              elim (Bool-cases (m.tables (m.tables r i).addr j).present) [
                | inr n ↦ rw (same, on, next, n) refl
                | inl on' ↦
                    let b = v.at_pd i j _ a on' in
                    rw (same, on, next, on')
                      (g.rest _ _ (not_free_pd b) (inl (λ s. not_root_pd own v.at_root b (sym s))))
              ]
        ]
  ]

module _ {r : ℕ} {own : ℕ → Owner} {m m' : Memory} (i0 j0 t k : ℕ) (v : IsTree r own m)
    (here : own t ≡ Owner.pdp i0) (off : (m.tables t j0).present ≡ false)
    (g : Grafted own t j0 k m m') where
  pub leaf-graft_pdp : (i j n : ℕ) → i ≢ 256 → leaf r i j n m'.tables ≡ leaf r i j n m.tables
  unfolding leaf
  leaf-graft_pdp i j n ne =
      let same = g.rest r i (not_free_root v.at_root) (inl (not_root_pdp own v.at_root here)) in
      elim (Bool-cases (m.tables r i).present) [
        | inr n ↦ rw (same, n) refl
        | inl on ↦
            let a = v.at_pdp i ne on in
            elim (same_entry (m.tables r i).addr t j j0) [
              | inl (x, y) ↦
                  let none_yet : (m.tables t j).present ≡ false = rw y off in
                  let dark = g.new n in
                  rw (same, on, x, none_yet, ap (m'.tables t) y, g.entry, dark) refl
              | inr d ↦
                  let next = g.rest (m.tables r i).addr j (not_free_pdp a) d in
                  elim (Bool-cases (m.tables (m.tables r i).addr j).present) [
                    | inr n ↦ rw (same, on, next, n) refl
                    | inl on' ↦
                        let b = v.at_pd i j _ a on' in
                        rw (same, on, next, on')
                          (g.rest _ _ (not_free_pd b) (inl (λ s. not_pdp_pd own here b (sym s))))
                  ]
            ]
      ]
