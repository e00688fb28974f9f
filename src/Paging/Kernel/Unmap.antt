-- ===== src/Paging/Kernel/Unmap.antt =====
-- `vm_unmap_n` of kernel/k_memory.c: the loop over `vm_unmap_page`.
use yomotsu.Base.{
  ℕ, zero, suc, ◌+◌, ◌*◌, ◌/◌, ◌%◌, ◌^◌, sym, ◌≤◌, ◌<◌, ◌≡◌, ◌≢◌, ◌⊎◌, inl, inr, refl, ap, true,
  false, arith, ltb, ◌==◌, if◌then◌else◌, Bool-cases, ◌∙◌, u64_mod, add_u64, ℕ_discrete,
}
use yomotsu.Frames.{page_size}
use yomotsu.Paging.{Memory, empty, vm_is_mapped, pml4_idx, pdp_idx, pd_idx}
use yomotsu.Paging.Tree.{Owner, IsTree, leaf}
use yomotsu.Paging.Write.{is_page}
use yomotsu.Paging.Translate.{vm_is_mapped-leaf, vm_unmap_page-refines}
use yomotsu.Paging.Kernel.{Unmapped, unmap_from, vm_unmap_n}

-- The entry `(i , j , n)` is that of a page from `p` on, below `end`.
abbrev pub InRange : ℕ → ℕ → ℕ → ℕ → ℕ → Type 0
InRange p end i j n = (x : ℕ) × (x % page_size ≡ 0) × (p ≤ x) × (x < end) × (is_page x i j n ≡ true)

-- From `m` on, the entries of a range are cleared, and no other entry is changed.
abbrev pub Cleared : ℕ → ℕ → ℕ → Memory → Memory → Type 0
Cleared r p end m m' =
    ((x : ℕ) → x % page_size ≡ 0 → p ≤ x → x < end → vm_is_mapped r x m'.tables ≡ false)
    × ((i j n : ℕ)
        → i ≢ 256
        → (leaf r i j n m'.tables ≡ leaf r i j n m.tables)
          ⊎ (InRange p end i j n × (leaf r i j n m'.tables ≡ empty)))

-- Every page of a range is mapped.
abbrev pub AllMapped : ℕ → ℕ → ℕ → Memory → Type 0
AllMapped r p end m =
    (x : ℕ) → x % page_size ≡ 0 → p ≤ x → x < end → vm_is_mapped r x m.tables ≡ true

abbrev pub Unmaps : ℕ → (ℕ → Owner) → ℕ → ℕ → Memory → Unmapped → Type 0
Unmaps r own p end m Unmapped.unfinished = ⊥
Unmaps r own p end m (Unmapped.panicked m') =
    (x : ℕ) × (x % page_size ≡ 0)
    × (p ≤ x)
    × (x < end)
    × (vm_is_mapped r x m.tables ≡ false)
    × AllMapped r p x m
    × (m'.frames ≡ m.frames)
    × Cleared r p x m m'
Unmaps r own p end m (Unmapped.done m') =
    AllMapped r p end m × IsTree r own m' × (m'.frames ≡ m.frames) × Cleared r p end m m'

-- Two pages of a range of 2 ^ 48 bytes have different entries.
is_page-other :
    (p x : ℕ)
    → p % page_size ≡ 0
    → x % page_size ≡ 0
    → p < x
    → x < p + 2 ^ 48
    → is_page p (pml4_idx x) (pdp_idx x) (pd_idx x) ≡ false
is_page-other p x al al' lt near = ground arith

Cleared-later :
    (r p x : ℕ) (m m1 m' : Memory)
    → p % page_size ≡ 0
    → p < x
    → pml4_idx p ≢ 256
    → ((i j n : ℕ)
        → i ≢ 256
        → leaf r i j n m1.tables ≡ (if is_page p i j n then empty else leaf r i j n m.tables))
    → Cleared r (p + page_size) x m1 m'
    → Cleared r p x m m'
Cleared-later r p x m m1 m' al lt off first c = (
  λ y a lo hi. elim (ℕ_discrete y p) [
    | yes e ↦
        let now = first (pml4_idx p) (pdp_idx p) (pd_idx p) off in
        let none : leaf r (pml4_idx p) (pdp_idx p) (pd_idx p) m1.tables ≡ empty =
          now ∙ ground arith in
        let later : leaf r (pml4_idx p) (pdp_idx p) (pd_idx p) m'.tables ≡ empty =
          elim (c.1 (pml4_idx p) (pdp_idx p) (pd_idx p) off) [
            | inl same ↦ same ∙ none
            | inr (range, e) ↦ e
          ] in
        rw e (vm_is_mapped-leaf r p m' ∙ ap (λ e. e.present) later)
    | no ne ↦ c.0 y a (omega arith) hi
  ],
  λ i j n ne. elim (c.1 i j n ne) [
    | inr (range, e) ↦ inr ((range.0, range.1, omega (arith, range.2), range.3, range.4), e)
    | inl same ↦ elim (Bool-cases (is_page p i j n)) [
      | inl here ↦ inr ((p, al, omega arith, lt, here), same ∙ first i j n ne ∙ rw here refl)
      | inr there ↦ inl (same ∙ first i j n ne ∙ rw there refl)
    ]
  ],
)

-- The entry of the page at `p` is cleared, and no other.
abbrev First : ℕ → ℕ → Memory → Memory → Type 0
First r p m m1 =
    (i j n : ℕ)
    → i ≢ 256
    → leaf r i j n m1.tables ≡ (if is_page p i j n then empty else leaf r i j n m.tables)

mapped-later :
    (r p x : ℕ) (m m1 : Memory)
    → First r p m m1
    → p % page_size ≡ 0
    → x % page_size ≡ 0
    → p < x
    → x < p + 2 ^ 48
    → pml4_idx x ≢ 256
    → vm_is_mapped r x m1.tables ≡ vm_is_mapped r x m.tables
mapped-later r p x m m1 first al al' lt near off =
    let same : leaf r (pml4_idx x) (pdp_idx x) (pd_idx x) m1.tables
        ≡ leaf r (pml4_idx x) (pdp_idx x) (pd_idx x) m.tables =
      first (pml4_idx x) (pdp_idx x) (pd_idx x) off
      ∙ ap (λ b. if b then empty else leaf r (pml4_idx x) (pdp_idx x) (pd_idx x) m.tables)
          (is_page-other p x al al' lt near) in
    vm_is_mapped-leaf r x m1 ∙ ap (λ e. e.present) same ∙ sym (vm_is_mapped-leaf r x m)

module _ (r : ℕ) (own : ℕ → Owner) (end : ℕ) where
  -- The pages from `p` on lie outside of the window in which the tables themselves are seen.
  abbrev pub IsOutside : ℕ → Type 0
  IsOutside p = (x : ℕ) → p ≤ x → x < end → pml4_idx x ≢ 256

  AllMapped-later :
      (p x : ℕ) (m m1 : Memory)
      → p % page_size ≡ 0
      → IsOutside p
      → x ≤ end
      → end ≤ p + 2 ^ 48
      → vm_is_mapped r p m.tables ≡ true
      → First r p m m1
      → AllMapped r (p + page_size) x m1
      → AllMapped r p x m
  AllMapped-later p x m m1 al out within near on first all y al' lo hi = elim (ℕ_discrete y p) [
    | yes e ↦ rw e on
    | no ne ↦
        sym (
          mapped-later r p y m m1 first al al' (omega arith) (omega arith) (out y lo (omega arith)))
        ∙ all y al' (omega arith) hi
  ]

  Unmaps-later :
      (p : ℕ) (m m1 : Memory) (u : Unmapped)
      → p % page_size ≡ 0
      → p < end
      → IsOutside p
      → end ≤ p + 2 ^ 48
      → vm_is_mapped r p m.tables ≡ true
      → m1.frames ≡ m.frames
      → First r p m m1
      → Unmaps r own (p + page_size) end m1 u
      → Unmaps r own p end m u
  Unmaps-later p m m1 Unmapped.unfinished al lt out near on same first s = s
  Unmaps-later p m m1 (Unmapped.panicked m') al lt out near on same first
        (x, al', lo, hi, dark, all, f, c) =
      (
        x,
        al',
        omega arith,
        hi,
        sym (
              mapped-later r p x m m1 first al al' (omega arith) (omega arith)
                (out x (omega arith) hi))
            ∙ dark,
        AllMapped-later p x m m1 al out (omega arith) near on first all,
        f ∙ same,
        Cleared-later r p x m m1 m' al (omega arith) (out p (omega arith) lt) first c,
      )
  Unmaps-later p m m1 (Unmapped.done m') al lt out near on same first (all, tree, f, c) = (
    AllMapped-later p end m m1 al out (omega arith) near on first all,
    tree,
    f ∙ same,
    Cleared-later r p end m m1 m' al lt (out p (omega arith) lt) first c,
  )

  unmap_from-Unmaps :
      (n p : ℕ) (m : Memory)
      → IsTree r own m
      → p % page_size ≡ 0
      → IsOutside p
      → p ≤ end + page_size
      → end + page_size < u64_mod
      → end + page_size < p + n * page_size
      → end ≤ p + 2 ^ 48
      → Unmaps r own p end m (unmap_from n r p end m)
  unfolding unmap_from
  unmap_from-Unmaps zero p m v al out le hi fuel near = omega arith
  unmap_from-Unmaps (suc n) p m v al out le hi fuel near = elim (Bool-cases (ltb p end)) [
    | inr past ↦ rw past (
      (λ x a lo hi'. absurd (ground arith)),
      v,
      refl,
      ((λ x a lo hi'. absurd (ground arith)), λ i j k ne. inl refl),
    )
    | inl below ↦
        let lt : p < end = ground arith in
        let off = out p (omega arith) lt in
        let same : add_u64 p page_size ≡ p + page_size = omega arith in
        elim (vm_unmap_page-refines p v off) [
          | inl (e, dark) ↦
              rw (below, e)
                (
                  p,
                  al,
                  omega arith,
                  lt,
                  dark,
                  (λ x a lo hi'. absurd (omega arith)),
                  refl,
                  ((λ x a lo hi'. absurd (omega arith)), λ i j k ne. inl refl),
                )
          | inr (m1, e, on, tree, f, pages) ↦
              rw (below, e, same)
                (Unmaps-later p m m1 _ al lt out near on f pages (
                  unmap_from-Unmaps n (p + page_size) m1 tree (omega arith)
                    (λ x lo hi'. out x (omega arith) hi') (omega arith) hi (omega arith)
                    (omega arith)))
        ]
  ]

-- `vm_unmap_n` of a range that spans at most 2 ^ 48 bytes ends. If all pages that a byte of the range
-- lies in are mapped, it clears their entries, changes no other entry, and gives no frame back. If
-- not, it panics at the first page that is not mapped, the ones before it being cleared.
pub vm_unmap_n_lem :
    {r : ℕ} {own : ℕ → Owner} {m : Memory} (vma size : ℕ)
    → IsTree r own m
    → 0 < size
    → vma + size + page_size < u64_mod
    → vma + size ≤ vma / page_size * page_size + 2 ^ 48
    → IsOutside r own (vma + size) (vma / page_size * page_size)
    → Unmaps r own (vma / page_size * page_size) (vma + size) m (vm_unmap_n r vma size m)
unfolding vm_unmap_n
vm_unmap_n_lem {r} {own} {m} vma size v pos hi span out =
    let same : add_u64 vma size ≡ vma + size = omega arith in
    let some_size : (size == 0) ≡ false = ground arith in
    rw (some_size, same)
      (unmap_from-Unmaps r own (vma + size) (size / page_size + 3) (vma / page_size * page_size) m v
        (omega arith) out (omega arith) (omega arith) (omega arith) span)
