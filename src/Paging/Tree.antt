-- ===== src/Paging/Tree.antt =====
-- The tables of an address space, kernel/k_memory.c, as a tree: which table stands in which frame.
use yomotsu.Base.{
  ℕ, ◌+◌, ◌*◌, ◌/◌, ◌%◌, ◌^◌, ◌<◌, ◌≡◌, ◌≢◌, ◌⊎◌, inl, inr, refl, ap, Bool, true, false, ◌&&◌,
  arith, leb, ltb, ◌==◌, if◌then◌else◌, ℕ_discrete, Bool-cases, ◌∙◌, update, sym,
}
use yomotsu.Frames.{Frames, page_size, map_elements}
use yomotsu.Paging.{Entry, empty, Memory, set_entry, clear_frame, install}

-- What a table is: the root, the table behind an entry of the root, or the one behind an entry of
-- that.
pub data Owner : Type 0 where
  free root : Owner
  pdp : ℕ → Owner
  pd : ℕ → ℕ → Owner

-- The tables that present entries lead to from the root `r`, each of them with its place `own`, and
-- each in a frame of its own that is in use. Entry 256 of the root, which leads to the root itself,
-- is left out.
pub record IsTree (r : ℕ) (own : ℕ → Owner) (m : Memory) : Type 0 where
  pub at_root : own r ≡ Owner.root
  pub at_pdp :
      (i : ℕ) → i ≢ 256 → (m.tables r i).present ≡ true → own (m.tables r i).addr ≡ Owner.pdp i
  pub at_pd :
      (i j t : ℕ)
      → own t ≡ Owner.pdp i
      → (m.tables t j).present ≡ true
      → own (m.tables t j).addr ≡ Owner.pd i j
  pub in_use : (t : ℕ) → own t ≢ Owner.free → m.frames.map (t / 512) ≢ 0

-- The entry that the processor finds for a page: that of the third table, or none.
unfoldable pub leaf : ℕ → ℕ → ℕ → ℕ → (ℕ → ℕ → Entry) → Entry
leaf r i j k tables =
    let pml4e = tables r i in
    let pdpe = tables pml4e.addr j in
    if pml4e.present then (if pdpe.present then tables pdpe.addr k else empty) else empty

pub not_free_pdp : {a : Owner} {i : ℕ} → a ≡ Owner.pdp i → a ≢ Owner.free
not_free_pdp p e = cc

pub not_free_pd : {a : Owner} {i j : ℕ} → a ≡ Owner.pd i j → a ≢ Owner.free
not_free_pd p e = cc

pub not_free_root : {a : Owner} → a ≡ Owner.root → a ≢ Owner.free
not_free_root p e = cc

pub pdp_inj : {i j : ℕ} → Owner.pdp i ≡ Owner.pdp j → i ≡ j
pdp_inj e = cc

pub not_root_pdp : (own : ℕ → Owner) {r t i : ℕ} → own r ≡ Owner.root → own t ≡ Owner.pdp i → r ≢ t
not_root_pdp own p q e = cc

pub not_pdp_pd :
    (own : ℕ → Owner) {t u i i' j : ℕ} → own t ≡ Owner.pdp i → own u ≡ Owner.pd i' j → t ≢ u
not_pdp_pd own p q e = cc

pub pd_inj : {i j i' j' : ℕ} → Owner.pd i j ≡ Owner.pd i' j' → (i ≡ i') × (j ≡ j')
pd_inj e = (cc, cc)

pub not_root_pd :
    (own : ℕ → Owner) {r t i j : ℕ} → own r ≡ Owner.root → own t ≡ Owner.pd i j → r ≢ t
not_root_pd own p q e = cc

pub same_entry : (u t j i : ℕ) → ((u ≡ t) × (j ≡ i)) ⊎ ((u ≢ t) ⊎ (j ≢ i))
same_entry u t j i = elim (ℕ_discrete u t) [
  | yes a ↦ elim (ℕ_discrete j i) [ yes b ↦ inl (a, b) | no b ↦ inr (inr b) ]
  | no a ↦ inr (inl a)
]

-- The tables of the frame `k`.
abbrev pub in_frame : ℕ → ℕ → Bool
in_frame k u = leb (k * 512) u && ltb u (k * 512 + 512)

-- A table that is in use does not stand in a frame that is free.
pub in_frame-false :
    {r : ℕ} {own : ℕ → Owner} {m : Memory} (k u : ℕ)
    → IsTree r own m
    → m.frames.map k ≡ 0
    → own u ≢ Owner.free
    → in_frame k u ≡ false
in_frame-false {m = m} k u v z used = elim (Bool-cases (in_frame k u)) [
  | inr e ↦ e
  | inl e ↦
      let same : u / 512 ≡ k = ground arith in absurd (v.in_use u used (ap m.frames.map same ∙ z))
]

pub install-tables :
    (t i k : ℕ) (frames : Frames) (m : Memory) (u j : ℕ)
    → k < map_elements
    → (install t i (k * page_size) frames m).tables u j ≡ (
        if (u == t) && (j == i)
        then record (m.tables t i) { rw = true; present = true; addr = k * 512 }
        else if in_frame k u
        then empty
        else m.tables u j)
unfolding install set_entry clear_frame
install-tables t i k frames m u j h =
    let first : k * page_size / 2 ^ 12 ≡ k * 512 = omega arith in
    let second : k * 512 % 2 ^ 40 ≡ k * 512 = omega arith in rw (first, second) refl

-- The place of each table, with a new one in the frame `k`.
abbrev pub place : ℕ → Owner → (ℕ → Owner) → ℕ → Owner
place k o own u = if u == k * 512 then o else own u

pub place-eq :
    {r : ℕ} {own : ℕ → Owner} {m : Memory} (k u : ℕ) (o : Owner)
    → IsTree r own m
    → m.frames.map k ≡ 0
    → own u ≢ Owner.free
    → place k o own u ≡ own u
place-eq k u o v z used = let no = in_frame-false k u v z used in ground (arith, no)

-- What holds of a fresh table: the memory that `install` leaves, of a frame that was free.
pub record Fresh (k : ℕ) (frames : Frames) (m : Memory) : Type 0 where
  pub below : k < map_elements
  pub was_free : m.frames.map k ≡ 0
  pub map_is : frames.map ≡ update m.frames.map k 1
  pub locked_is : frames.locked ≡ m.frames.locked

in_use-place :
    {r : ℕ} {own : ℕ → Owner} {m : Memory} {frames : Frames} (k u : ℕ) (o : Owner)
    → IsTree r own m
    → Fresh k frames m
    → place k o own u ≢ Owner.free
    → frames.map (u / 512) ≢ 0
in_use-place {own} {m} {frames} k u o v f used = elim (ℕ_discrete u (k * 512)) [
  | yes e ↦ let here : u / 512 ≡ k = omega arith in rw (f.map_is, here) (ground arith)
  | no ne ↦
      let old : place k o own u ≡ own u = ground arith in
      let was = v.in_use u (rw (← old) used) in rw f.map_is (ground arith)
]

-- The memory `m'` is `m` with a fresh table in the frame `k`, behind the entry `i` of the table `t`.
pub record Grafted (own : ℕ → Owner) (t i k : ℕ) (m m' : Memory) : Type 0 where
  pub fresh : Fresh k m'.frames m
  pub entry : m'.tables t i ≡ record (m.tables t i) { rw = true; present = true; addr = k * 512 }
  pub new : (j : ℕ) → m'.tables (k * 512) j ≡ empty
  pub rest : (u j : ℕ) → own u ≢ Owner.free → (u ≢ t) ⊎ (j ≢ i) → m'.tables u j ≡ m.tables u j

pub install-Grafted :
    {r : ℕ} {own : ℕ → Owner} {m : Memory} {frames : Frames} (t i k : ℕ)
    → IsTree r own m
    → Fresh k frames m
    → own t ≢ Owner.free
    → Grafted own t i k m (install t i (k * page_size) frames m)
unfolding install
install-Grafted {m = m} {frames = frames} t i k v f used =
    let no = in_frame-false k t v f.was_free used in
    record {
      fresh = f;
      entry = install-tables t i k frames m t i f.below ∙ ground arith;
      new = λ j. install-tables t i k frames m (k * 512) j f.below ∙ ground arith;
      rest = λ u j old ne.
          let past = in_frame-false k u v f.was_free old in
          install-tables t i k frames m u j f.below ∙ ground arith;
    }

module _ {r : ℕ} {own : ℕ → Owner} {m m' : Memory} (i k : ℕ) (v : IsTree r own m) where
  graft_root_pdp :
      (i' : ℕ)
      → Grafted own r i k m m'
      → i' ≢ 256
      → (m'.tables r i').present ≡ true
      → place k (Owner.pdp i) own (m'.tables r i').addr ≡ Owner.pdp i'
  graft_root_pdp i' g ne on = elim (ℕ_discrete i' i) [
    | yes e ↦ rw (e, g.entry) (ground arith)
    | no d ↦
        let same = g.rest r i' (not_free_root v.at_root) (inr d) in
        let was = v.at_pdp i' ne (ap (λ e. e.present) (sym same) ∙ on) in
        rw same (place-eq k _ _ v g.fresh.was_free (not_free_pdp was) ∙ was)
  ]

  graft_root_pd :
      (i' j t : ℕ)
      → Grafted own r i k m m'
      → place k (Owner.pdp i) own t ≡ Owner.pdp i'
      → (m'.tables t j).present ≡ true
      → place k (Owner.pdp i) own (m'.tables t j).addr ≡ Owner.pd i' j
  graft_root_pd i' j t g e on = elim (ℕ_discrete t (k * 512)) [
    | yes h ↦
        let off : (m'.tables t j).present ≡ false =
          ap (λ e. e.present) (ap (λ x. m'.tables x j) h ∙ g.new j) in
        absurd (ground arith)
    | no d ↦
        let old : own t ≡ Owner.pdp i' = ground arith in
        let same =
          g.rest t j (not_free_pdp old) (inl (λ s. not_root_pdp own v.at_root old (sym s))) in
        let was = v.at_pd i' j t old (ap (λ e. e.present) (sym same) ∙ on) in
        rw same (place-eq k _ _ v g.fresh.was_free (not_free_pd was) ∙ was)
  ]

  pub graft_root-IsTree : Grafted own r i k m m' → IsTree r (place k (Owner.pdp i) own) m'
  graft_root-IsTree g =
      let used = not_free_root v.at_root in
      record {
        at_root = place-eq k r (Owner.pdp i) v g.fresh.was_free used ∙ v.at_root;
        at_pdp = λ i'. graft_root_pdp i' g;
        at_pd = λ i' j t. graft_root_pd i' j t g;
        in_use = λ t. in_use-place k t (Owner.pdp i) v g.fresh;
      }

module _ {r : ℕ} {own : ℕ → Owner} {m m' : Memory} (i j t k : ℕ) (v : IsTree r own m)
    (here : own t ≡ Owner.pdp i) where
  graft_pdp_pdp :
      (i' : ℕ)
      → Grafted own t j k m m'
      → i' ≢ 256
      → (m'.tables r i').present ≡ true
      → place k (Owner.pd i j) own (m'.tables r i').addr ≡ Owner.pdp i'
  graft_pdp_pdp i' g ne on =
      let same = g.rest r i' (not_free_root v.at_root) (inl (not_root_pdp own v.at_root here)) in
      let was = v.at_pdp i' ne (ap (λ e. e.present) (sym same) ∙ on) in
      rw same (place-eq k _ _ v g.fresh.was_free (not_free_pdp was) ∙ was)

  graft_pdp_pd_old :
      (i' j' u : ℕ)
      → Grafted own t j k m m'
      → own u ≡ Owner.pdp i'
      → (u ≢ t) ⊎ (j' ≢ j)
      → (m'.tables u j').present ≡ true
      → place k (Owner.pd i j) own (m'.tables u j').addr ≡ Owner.pd i' j'
  graft_pdp_pd_old i' j' u g old ne on =
      let same = g.rest u j' (not_free_pdp old) ne in
      let was = v.at_pd i' j' u old (ap (λ e. e.present) (sym same) ∙ on) in
      rw same (place-eq k _ _ v g.fresh.was_free (not_free_pd was) ∙ was)

  graft_pdp_pd :
      (i' j' u : ℕ)
      → Grafted own t j k m m'
      → place k (Owner.pd i j) own u ≡ Owner.pdp i'
      → (m'.tables u j').present ≡ true
      → place k (Owner.pd i j) own (m'.tables u j').addr ≡ Owner.pd i' j'
  graft_pdp_pd i' j' u g e on =
      let old : own u ≡ Owner.pdp i' = ground arith in
      elim (same_entry u t j' j) [
        | inl (a, b) ↦
            let first : i ≡ i' = pdp_inj (sym here ∙ ap own (sym a) ∙ old) in
            rw (a, b, g.entry) (ground arith)
        | inr ne ↦ graft_pdp_pd_old i' j' u g old ne on
      ]

  pub graft_pdp-IsTree : Grafted own t j k m m' → IsTree r (place k (Owner.pd i j) own) m'
  graft_pdp-IsTree g =
      let used = not_free_root v.at_root in
      record {
        at_root = place-eq k r (Owner.pd i j) v g.fresh.was_free used ∙ v.at_root;
        at_pdp = λ i'. graft_pdp_pdp i' g;
        at_pd = λ i' j' u. graft_pdp_pd i' j' u g;
        in_use = λ u. in_use-place k u (Owner.pd i j) v g.fresh;
      }
