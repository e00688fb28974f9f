-- ===== src/Paging/Kernel/Pages.antt =====
-- `vm_unmap_n`, `vm_kern_map_page` and `vm_kern_alloc_anywhere` of kernel/k_memory.c: the lock of the
-- kernel's tables, and what the loops over pages come to.
use yomotsu.Base.{
  ℕ, zero, suc, ◌*◌, ◌<◌, ◌≡◌, ◌≢◌, inl, inr, refl, ap, Bool, true, false, arith, ◌==◌,
  if◌then◌else◌, Bool-cases, Option-cases, ◌∙◌, sym, subst,
}
use yomotsu.Frames.{Alloc, page_size, map_elements, div_ceil, pma_alloc}
use yomotsu.Frames.Single.{pma_alloc_lem}
use yomotsu.Paging.{Memory, vm_unmap_page}
use yomotsu.Paging.Kernel.{
  Found, Anywhere, vm_kern_map_page, give_back, after_map, after_alloc, alloc_pages, alloc_at,
  vm_kern_alloc_anywhere, vm_alloc_vaddr, kernel_begin, kernel_end,
}

-- The pointer is never an address.
abbrev pub NoAddress : Anywhere → Type 0
NoAddress (Anywhere.at a m) = ⊥
NoAddress _ = Unit

give_back-NoAddress : (n root rp : ℕ) (m : Memory) → NoAddress (give_back n root rp m)
unfolding give_back
give_back-NoAddress zero root rp m = tt
give_back-NoAddress (suc n) root rp m = elim (Option-cases (vm_unmap_page root rp m)) [
  | inl e ↦ rw (e, NoAddress) tt
  | inr (x, e) ↦ rw (e, NoAddress) (give_back-NoAddress n root _ _)
]

after_alloc-NoAddress :
    (i root ret vma : ℕ) (m : Memory) (rest : Memory → Anywhere) (a : Alloc)
    → m.kern_lock ≡ true
    → NoAddress (after_alloc i root ret vma m rest a)
unfolding after_alloc vm_kern_map_page after_map
after_alloc-NoAddress i root ret vma m rest Alloc.blocked held = tt
after_alloc-NoAddress i root ret vma m rest (Alloc.returned pma g) held =
    elim (Bool-cases (pma == 0)) [
      | inl e ↦ rw (e, NoAddress) (give_back-NoAddress i root ret (record m { frames = g }))
      | inr e ↦ rw (e, held) tt
    ]

alloc_at-NoAddress :
    (n root : ℕ) (m : Memory) (f : Found)
    → 0 < n
    → m.kern_lock ≡ true
    → NoAddress (alloc_at n root m f)
unfolding alloc_at alloc_pages
alloc_at-NoAddress n root m Found.unfinished pos held = tt
alloc_at-NoAddress n root m Found.null pos held = tt
alloc_at-NoAddress zero root m (Found.at vma) pos held = absurd (omega arith)
alloc_at-NoAddress (suc n) root m (Found.at vma) pos held =
    after_alloc-NoAddress 0 root vma vma m _ (pma_alloc m.frames) held

alloc_at-blocked :
    (n root vma k : ℕ) (m : Memory)
    → 0 < n
    → m.kern_lock ≡ true
    → m.frames.map 0 ≢ 0
    → k < map_elements
    → m.frames.map k ≡ 0
    → alloc_at n root m (Found.at vma) ≡ Anywhere.blocked
unfolding alloc_at alloc_pages after_alloc vm_kern_map_page after_map
alloc_at-blocked zero root vma k m pos held zeroth lt free = absurd (omega arith)
alloc_at-blocked (suc n) root vma k m pos held zeroth lt free = elim (pma_alloc_lem m.frames) [
  | inr (full, e) ↦ absurd (full k lt free)
  | inl (k', first', e) ↦
      let ne : k' ≢ 0 = (λ z. zeroth (ap m.frames.map (sym z) ∙ first'.1)) in
      let nz : (k' * page_size == 0) ≡ false = ground arith in rw (e, nz, held) refl
]

pages_some : (size : ℕ) → 0 < div_ceil size page_size
pages_some size = omega arith

if_true : {b : Bool} {x : Anywhere} (y : Anywhere) → b ≡ true → (if b then x else y) ≡ x
if_true y e = rw e refl

if_false : {b : Bool} (x : Anywhere) {y : Anywhere} → b ≡ false → (if b then x else y) ≡ y
if_false x e = rw e refl

-- `vm_kern_alloc_anywhere` takes the lock of the kernel's tables, and so does `vm_kern_map_page`,
-- which it calls for each page: whatever the memory, it never returns an address. If it has found
-- room for the pages, a frame is free and frame 0 is in use, it waits for ever.
pub vm_kern_alloc_anywhere-NoAddress :
    (root size : ℕ) (m : Memory)
    → NoAddress (vm_kern_alloc_anywhere root size m)
      × ((vma k : ℕ)
          → vm_alloc_vaddr root kernel_begin kernel_end size m.tables ≡ Found.at vma
          → m.frames.map 0 ≢ 0
          → k < map_elements
          → m.frames.map k ≡ 0
          → vm_kern_alloc_anywhere root size m ≡ Anywhere.blocked)
unfolding vm_kern_alloc_anywhere
vm_kern_alloc_anywhere-NoAddress root size m =
    let taken = record m { kern_lock = true } in
    elim (Bool-cases m.kern_lock) [
      | inl held ↦
          let is : vm_kern_alloc_anywhere root size m ≡ Anywhere.blocked = if_true _ held in
          (subst NoAddress (sym is) tt, λ vma k f zeroth lt free. is)
      | inr unheld ↦
          let is : vm_kern_alloc_anywhere root size m
              ≡ alloc_at (div_ceil size page_size) root taken
                  (vm_alloc_vaddr root kernel_begin kernel_end size m.tables) =
            if_false _ unheld in
          (
            subst NoAddress (sym is) (
                alloc_at-NoAddress (div_ceil size page_size) root taken
                  (vm_alloc_vaddr root kernel_begin kernel_end size m.tables) (pages_some size)
                  refl),
            λ vma k f zeroth lt free.
                is
                ∙ ap (alloc_at (div_ceil size page_size) root taken) f
                ∙ alloc_at-blocked (div_ceil size page_size) root vma k taken (pages_some size) refl
                    zeroth lt free,
          )
    ]
