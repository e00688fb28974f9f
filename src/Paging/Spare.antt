-- ===== src/Paging/Spare.antt =====
-- `vm_map_page` of kernel/k_memory.c returns: two free frames are enough for it.
use yomotsu.Base.{
  ℕ, ◌*◌, ◌<◌, ◌≡◌, ◌≢◌, ◌⊎◌, inl, inr, refl, ap, Bool, true, false, arith, ◌==◌, if◌then◌else◌,
  ℕ_discrete, Bool-cases, ◌∙◌, update, sym, subst,
}
use yomotsu.Frames.{page_size, map_elements}
use yomotsu.Frames.Single.{pma_alloc_lem}
use yomotsu.Paging.{
  Memory, Attr, Ensured, Mapped, install, installed, ensure_table, map_entry, map_pd, map_pdp,
  vm_map_page, pml4_idx, pdp_idx,
}
use yomotsu.Paging.Tree.{Owner, IsTree}
use yomotsu.Paging.Mapping.{Outcome, page_entry, vm_map_page-refines}

-- A frame that `pma_alloc` can hand out. Frame 0 is none: its address is the null that means that
-- there is no frame.
abbrev pub IsSpare : ℕ → Memory → Type 0
IsSpare k m = (k < map_elements) × (m.frames.map k ≡ 0)

-- The step went on, and took one frame at most.
abbrev pub Goes : Memory → Ensured → Type 0
Goes m Ensured.blocked = ⊥
Goes m (Ensured.no_frame m') = ⊥
Goes m (Ensured.ready m') =
    (m'.frames.map 0 ≢ 0)
    × ((k1 k2 : ℕ) → k1 ≢ k2 → IsSpare k1 m → IsSpare k2 m → IsSpare k1 m' ⊎ IsSpare k2 m')

other_count : (f : ℕ → ℕ) (k j : ℕ) → j ≢ k → f j ≡ update f k 1 j
other_count f k j ne = ground arith

-- One of two spare frames is left once a frame is taken.
one_left :
    (f : ℕ → ℕ) (k k1 k2 : ℕ)
    → k1 ≢ k2
    → (k1 < map_elements) × (f k1 ≡ 0)
    → (k2 < map_elements) × (f k2 ≡ 0)
    → ((k1 < map_elements) × (update f k 1 k1 ≡ 0)) ⊎ ((k2 < map_elements) × (update f k 1 k2 ≡ 0))
one_left f k k1 k2 d a b = elim (ℕ_discrete k1 k) [
  | yes e ↦ inr (b.0, sym (other_count f k k2 (λ y. d (e ∙ sym y))) ∙ b.1)
  | no ne ↦ inl (a.0, sym (other_count f k k1 ne) ∙ a.1)
]

ensure_table-Goes :
    (t i k : ℕ) (m : Memory) → m.frames.map 0 ≢ 0 → IsSpare k m → Goes m (ensure_table t i m)
unfolding ensure_table installed install
ensure_table-Goes t i k m zeroth spare = elim (Bool-cases (m.tables t i).present) [
  | inl on ↦ rw on (zeroth, λ k1 k2 d a b. inl a)
  | inr off ↦ elim (pma_alloc_lem m.frames) [
    | inl (k', first, e) ↦
        let ne : k' ≢ 0 = (λ z. zeroth (ap m.frames.map (sym z) ∙ first.1)) in
        let nz : (k' * page_size == 0) ≡ false = ground arith in
        rw (off, e, nz)
          (
            (λ z. zeroth (other_count m.frames.map k' 0 (λ y. ne (sym y)) ∙ z)),
            λ k1 k2 d a b. one_left m.frames.map k' k1 k2 d a b,
          )
    | inr (full, e) ↦ absurd (full k spare.0 spare.1)
  ]
]

-- The mapping is not stopped by a want of frames.
abbrev pub Finishes : Mapped → Type 0
Finishes Mapped.blocked = ⊥
Finishes (Mapped.null m) = ⊥
Finishes Mapped.panicked = Unit
Finishes (Mapped.mapped m) = Unit

if-Finishes :
    (a b : Bool) (x y : Memory)
    → Finishes (if a then (if b then Mapped.mapped x else Mapped.panicked) else Mapped.mapped y)
if-Finishes true true x y = tt
if-Finishes true false x y = tt
if-Finishes false b x y = tt

map_entry-Finishes :
    (r vma pma : ℕ) (attr : Attr) (m : Memory) → Finishes (map_entry r vma pma attr m)
unfolding map_entry
map_entry-Finishes r vma pma attr m = if-Finishes _ _ _ _

map_pd-Finishes :
    (r vma pma : ℕ) (attr : Attr) (m : Memory) (x : Ensured)
    → Goes m x
    → Finishes (map_pd r vma pma attr x)
unfolding map_pd
map_pd-Finishes r vma pma attr m Ensured.blocked g = g
map_pd-Finishes r vma pma attr m (Ensured.no_frame m') g = g
map_pd-Finishes r vma pma attr m (Ensured.ready m') g = map_entry-Finishes r vma pma attr m'

map_pdp-Finishes :
    (r vma pma k1 k2 : ℕ) (attr : Attr) (m : Memory) (x : Ensured)
    → k1 ≢ k2
    → IsSpare k1 m
    → IsSpare k2 m
    → Goes m x
    → Finishes (map_pdp r vma pma attr x)
unfolding map_pdp
map_pdp-Finishes r vma pma k1 k2 attr m Ensured.blocked d a b g = g
map_pdp-Finishes r vma pma k1 k2 attr m (Ensured.no_frame m') d a b g = g
map_pdp-Finishes r vma pma k1 k2 attr m (Ensured.ready m') d a b g =
    let next = λ (k : ℕ) (s : IsSpare k m').
      ensure_table-Goes (m'.tables r (pml4_idx vma)).addr (pdp_idx vma) k m' g.0 s in
    map_pd-Finishes r vma pma attr m' _
      (elim (g.1 k1 k2 d a b) [ inl s ↦ next k1 s | inr s ↦ next k2 s ])

Mapped-cases :
    (x : Mapped) → Finishes x → (x ≡ Mapped.panicked) ⊎ ((m : Memory) × (x ≡ Mapped.mapped m))
Mapped-cases Mapped.blocked f = absurd f
Mapped-cases (Mapped.null m) f = absurd f
Mapped-cases Mapped.panicked f = inl refl
Mapped-cases (Mapped.mapped m) f = inr (m, refl)

-- `vm_map_page` maps a page that was not mapped if two frames are free and frame 0 is in use:
-- it neither waits, nor runs out of frames, nor panics.
pub vm_map_page-finishes :
    {r : ℕ} {own : ℕ → Owner} {m : Memory} (vma pma k1 k2 : ℕ) (attr : Attr)
    → IsTree r own m
    → pml4_idx vma ≢ 256
    → (page_entry r vma m).present ≡ false
    → m.frames.map 0 ≢ 0
    → k1 ≢ k2
    → IsSpare k1 m
    → IsSpare k2 m
    → (m' : Memory) × (vm_map_page r vma pma attr m ≡ Mapped.mapped m')
unfolding vm_map_page
vm_map_page-finishes {r} {own} {m} vma pma k1 k2 attr v off dark zeroth d a b =
    let f =
      map_pdp-Finishes r vma pma k1 k2 attr m _ d a b
        (ensure_table-Goes r (pml4_idx vma) k1 m zeroth a) in
    let o = vm_map_page-refines vma pma attr v off in
    elim (Mapped-cases _ f) [
      | inr done ↦ done
      | inl e ↦ let panicked = subst (Outcome r vma pma attr m) e o in absurd (ground arith)
    ]
