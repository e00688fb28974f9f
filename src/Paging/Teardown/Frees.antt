-- ===== src/Paging/Teardown/Frees.antt =====
-- What `vm_empty_pd` of kernel/k_memory.c gives back.
use yomotsu.Base.{
  ◌/◌, ◌∙◌, ℕ, zero, suc, ◌+◌, ◌*◌, ◌^◌, ◌≤◌, ◌<◌, ◌≡◌, inl, inr, Bool, true, false, if◌then◌else◌,
  arith, add-one, Bool-cases, refl, ◌&&◌, ◌==◌,
}
use yomotsu.Frames.Range.{pma_free-frame}
use yomotsu.Frames.{dec_u8, page_size}
use yomotsu.Paging.{Entry, Memory, set_entry}
use yomotsu.Paging.Teardown.{clear_present, free_entry, for_entries, empty_pd_entry, vm_empty_pd}

-- The frame of the page behind an entry.
abbrev pub frame_of : Entry → ℕ
frame_of e = e.addr * 2 ^ 12 / page_size

-- How many of the entries from `i` on, with `n` left, are present with a page in the frame `f`.
pub references : ℕ → ℕ → (ℕ → Entry) → ℕ → ℕ
references zero i row f = 0
references (suc n) i row f =
    let rest = references n (i + 1) row f in
    if (row i).present && (f == frame_of (row i)) then rest + 1 else rest

-- A count of references after `k` of them are given up, each as `dec_u8` does.
pub released : ℕ → ℕ → ℕ
released zero v = v
released (suc k) v = released k (dec_u8 v)

references-row :
    (n i f : ℕ) (row row' : ℕ → Entry)
    → ((j : ℕ) → i ≤ j → row j ≡ row' j)
    → references n i row f ≡ references n i row' f
unfolding references
references-row zero i f row row' h = refl
references-row (suc n) i f row row' h =
    rw (h i (omega arith), references-row n (i + 1) f row row' (λ j lo. h j (omega arith))) refl

empty_pd_entry-row :
    (t i j : ℕ) (m : Memory) → i < j → m.tables t j ≡ (empty_pd_entry t i m).tables t j
unfolding empty_pd_entry clear_present free_entry set_entry
empty_pd_entry-row t i j m lt = elim (Bool-cases (m.tables t i).present) [
  | inl p ↦ rw p (ground arith)
  | inr p ↦ rw p refl
]

empty_pd_entry-map :
    (t i f : ℕ) (m : Memory)
    → (empty_pd_entry t i m).frames.map f ≡ (
        if (m.tables t i).present && (f == frame_of (m.tables t i))
        then dec_u8 (m.frames.map f)
        else m.frames.map f)
unfolding empty_pd_entry clear_present free_entry
empty_pd_entry-map t i f m = elim (Bool-cases (m.tables t i).present) [
  | inl p ↦ rw p (pma_free-frame ((m.tables t i).addr * 2 ^ 12) f m.frames)
  | inr p ↦ rw p refl
]

released-step :
    (b : Bool) (k v : ℕ)
    → released k (if b then dec_u8 v else v) ≡ released (if b then k + 1 else k) v
unfolding released
released-step true k v = rw (add-one k) refl
released-step false k v = refl

for_entries-frees :
    (n t i f : ℕ) (m : Memory)
    → (for_entries (empty_pd_entry t) n i m).frames.map f
      ≡ released (references n i (m.tables t) f) (m.frames.map f)
unfolding for_entries references released
for_entries-frees zero t i f m = refl
for_entries-frees (suc n) t i f m =
    let m1 = empty_pd_entry t i m in
    let same =
      references-row n (i + 1) f (m.tables t) (m1.tables t)
        (λ j lo. empty_pd_entry-row t i j m (omega arith)) in
    for_entries-frees n t (i + 1) f m1
    ∙ rw (← same, empty_pd_entry-map t i f m)
        (released-step ((m.tables t i).present && (f == frame_of (m.tables t i)))
          (references n (i + 1) (m.tables t) f) (m.frames.map f))

-- `vm_empty_pd` gives up one reference to a frame for each present entry with a page in it, and no
-- other.
pub vm_empty_pd-frees :
    (t f : ℕ) (m : Memory)
    → (vm_empty_pd t m).frames.map f ≡ released (references 512 0 (m.tables t) f) (m.frames.map f)
unfolding vm_empty_pd
vm_empty_pd-frees t f m = for_entries-frees 512 t 0 f m
