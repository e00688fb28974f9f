-- ===== src/KernelHeap/Merging.antt =====
-- What `kmem_free` of kernel/k_memory.c merges.
use yomotsu.Base.{
  if◌then◌else◌, ℕ, ◌+◌, ◌≡◌, ◌≢◌, ◌⊎◌, inl, inr, refl, Option, some, List, [], ◌∷◌, ◌++◌, arith,
  ◌==◌, Bool-cases,
}
use yomotsu.KernelHeap.{
  Chunk, merged, merge_next, merge_prev, release, cons_some, free_behind, free_chunk, magic_free,
  header_size,
}
use yomotsu.KernelHeap.Tiling.{
  Tiled, IsFree, IsAllocated, Tiled-le, Tiled-split, kheap_chunk_is_free_lem,
}

-- The chunks before the one that is freed, less the last if that is free.
abbrev pub without_free_last : List Chunk → List Chunk
without_free_last [] = []
without_free_last (c ∷ []) = if c.magic == magic_free then [] else c ∷ []
without_free_last (c ∷ d ∷ cs) = c ∷ without_free_last (d ∷ cs)

-- The chunks behind the one that is freed, less the first if that is free.
abbrev pub without_free_first : List Chunk → List Chunk
without_free_first [] = []
without_free_first (c ∷ cs) = if c.magic == magic_free then cs else c ∷ cs

-- One free chunk between the two lists.
abbrev pub Merges : List Chunk → List Chunk → Option (List Chunk) → Type 0
Merges before after r = (c : Chunk) × IsFree c × (r ≡ some (before ++ (c ∷ after)))

pub release-free : (c : Chunk) → IsAllocated c → release c ≡ some (record c { magic = magic_free })
unfolding release
release-free c h = rw h refl

-- A chunk further down the list lies further up in memory.
pub addr-ne :
    (before after : List Chunk) (x c : Chunk) (a b : ℕ)
    → Tiled a (x ∷ (before ++ (c ∷ after))) b
    → x.addr ≢ c.addr
addr-ne before after x c a b t e =
    let (m, l, r) = Tiled-split before (c ∷ after) _ b t.2 in
    let le = Tiled-le before _ m l in omega arith

pub free_behind-here :
    (prev c : Chunk) (after : List Chunk)
    → IsAllocated c
    → free_behind c.addr prev (c ∷ after) ≡ merge_prev prev (record c { magic = magic_free }) after
unfolding free_behind
free_behind-here prev c after h = ground (arith, release-free c h)

pub free_behind-further :
    (prev x : Chunk) (addr : ℕ) (rest : List Chunk)
    → x.addr ≢ addr
    → free_behind addr prev (x ∷ rest) ≡ cons_some prev (free_behind addr x rest)
unfolding free_behind
free_behind-further prev x addr rest ne = ground arith

pub free_chunk-here :
    (c : Chunk) (after : List Chunk)
    → IsAllocated c
    → free_chunk c.addr (c ∷ after) ≡ merge_next (record c { magic = magic_free }) after
unfolding free_chunk
free_chunk-here c after f = ground (arith, release-free c f)

pub free_chunk-further :
    (x : Chunk) (addr : ℕ) (rest : List Chunk)
    → x.addr ≢ addr
    → free_chunk addr (x ∷ rest) ≡ free_behind addr x rest
unfolding free_chunk
free_chunk-further x addr rest ne = ground arith

merge_next-Merges :
    (m b : ℕ) (c : Chunk) (after : List Chunk)
    → Tiled m after b
    → IsFree c
    → Merges [] (without_free_first after) (merge_next c after)
unfolding merge_next merged
merge_next-Merges m b c [] t f = (c, f, refl)
merge_next-Merges m b c (n ∷ after) t f = elim (Bool-cases (n.magic == magic_free)) [
  | inl e ↦ rw (kheap_chunk_is_free_lem n t.1, merge_next, e) (merged c n, f, refl)
  | inr e ↦ rw (kheap_chunk_is_free_lem n t.1, merge_next, e) (c, f, refl)
]

cons-Merges :
    (prev : Chunk) (before after : List Chunk) (r : Option (List Chunk))
    → Merges before after r
    → Merges (prev ∷ before) after (cons_some prev r)
unfolding cons_some
cons-Merges prev before after r (c, f, e) = (c, f, rw e refl)

merge_prev-Merges :
    (m b : ℕ) (prev c : Chunk) (after : List Chunk)
    → IsFree prev ⊎ IsAllocated prev
    → Tiled m after b
    → IsFree c
    → Merges (without_free_last (prev ∷ [])) (without_free_first after) (merge_prev prev c after)
unfolding merge_prev merged
merge_prev-Merges m b prev c after valid t f = elim (Bool-cases (prev.magic == magic_free)) [
  | inl e ↦
      rw (kheap_chunk_is_free_lem prev valid, merge_prev, e)
        (merge_next-Merges m b (merged prev c) after t (ground arith))
  | inr e ↦
      rw (kheap_chunk_is_free_lem prev valid, merge_prev, e)
        (cons-Merges prev [] _ _ (merge_next-Merges m b c after t f))
]

free_behind-Merges :
    (before after : List Chunk) (prev c : Chunk) (m b : ℕ)
    → Tiled m (prev ∷ (before ++ (c ∷ after))) b
    → IsAllocated c
    → Merges
        (without_free_last (prev ∷ before))
        (without_free_first after)
        (free_behind c.addr prev (before ++ (c ∷ after)))
free_behind-Merges [] after prev c m b t f =
    rw (free_behind-here prev c after f)
      (merge_prev-Merges _ b prev (record c { magic = magic_free }) after t.1 t.2.2 refl)
free_behind-Merges (x ∷ before) after prev c m b t f =
    rw
      (free_behind-further prev x c.addr (before ++ (c ∷ after)) (addr-ne before after x c _ b t.2))
      (cons-Merges prev _ _ _
        (free_behind-Merges before after x c (m + header_size + prev.size) b t.2 f))

pub free_chunk-Merges :
    (before after : List Chunk) (c : Chunk) (a b : ℕ)
    → Tiled a (before ++ (c ∷ after)) b
    → IsAllocated c
    → Merges
        (without_free_last before)
        (without_free_first after)
        (free_chunk c.addr (before ++ (c ∷ after)))
free_chunk-Merges [] after c a b t f =
    rw (free_chunk-here c after f)
      (merge_next-Merges _ b (record c { magic = magic_free }) after t.2 refl)
free_chunk-Merges (x ∷ before) after c a b t f =
    rw (free_chunk-further x c.addr (before ++ (c ∷ after)) (addr-ne before after x c a b t))
      (free_behind-Merges before after x c a b t f)
