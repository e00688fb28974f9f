-- ===== src/KernelHeap/Freeing.antt =====
-- `kmem_free` on a heap that tiles its memory.
use yomotsu.Base.{
  some_inj, ℕ, ◌+◌, ◌<◌, ◌≡◌, ◌⊎◌, inl, inr, refl, subst, Option, none, some, List, [], ◌∷◌, ◌++◌,
  arith, ◌==◌, Bool-cases, u64_mod, sub_u64,
}
use yomotsu.KernelHeap.{
  Chunk, KernelHeap, merged, merge_next, merge_prev, cons_some, free_behind, free_chunk,
  free_target, kmem_free, with_chunks, magic_free, header_size,
}
use yomotsu.KernelHeap.Tiling.{
  Tiled, blocks, IsFree, IsAllocated, Tiled-le, Tiled-split, kheap_chunk_is_free_lem,
}
use yomotsu.KernelHeap.Merging.{
  without_free_last, without_free_first, Merges, addr-ne, free_behind-here, free_behind-further,
  free_chunk-here, free_chunk-further, free_chunk-Merges,
}

-- The chunks that a step of `kmem_free` leaves: they tile the memory from `a` to `b`, and their
-- allocated blocks are `left`.
abbrev pub Leaves : ℕ → ℕ → List (ℕ × ℕ) → Option (List Chunk) → Type 0
Leaves a b left none = ⊥
Leaves a b left (some cs) = Tiled a cs b × (blocks cs ≡ left)

merge_next-Leaves :
    (m b : ℕ) (c : Chunk) (after : List Chunk)
    → Tiled m (c ∷ after) b
    → b < u64_mod
    → IsFree c
    → Leaves m b (blocks after) (merge_next c after)
unfolding merge_next merged
merge_next-Leaves m b c [] t hb f = (t, ground arith)
merge_next-Leaves m b c (n ∷ after) t hb f =
    let le = Tiled-le after _ b t.2.2 in
    elim (Bool-cases (n.magic == magic_free)) [
      | inl e ↦
          rw (kheap_chunk_is_free_lem n t.2.1, merge_next, e)
            ((t.0, t.1, subst (λ k. Tiled k after b) (omega arith) t.2.2), ground arith)
      | inr e ↦ rw (kheap_chunk_is_free_lem n t.2.1, merge_next, e) (t, ground arith)
    ]

cons-Leaves :
    (m b : ℕ) (c : Chunk) (left : List (ℕ × ℕ)) (r : Option (List Chunk))
    → c.addr ≡ m
    → IsFree c ⊎ IsAllocated c
    → Leaves (m + header_size + c.size) b left r
    → Leaves m b (blocks (c ∷ []) ++ left) (cons_some c r)
unfolding cons_some
cons-Leaves m b c left none at v l = l
cons-Leaves m b c left (some cs) at v l = ((at, v, l.0), ground arith)

merge_prev-Leaves :
    (m b : ℕ) (prev c : Chunk) (after : List Chunk)
    → Tiled m (prev ∷ c ∷ after) b
    → b < u64_mod
    → IsFree c
    → Leaves m b (blocks (prev ∷ []) ++ blocks after) (merge_prev prev c after)
unfolding merge_prev merged
merge_prev-Leaves m b prev c after t hb f =
    let le = Tiled-le after _ b t.2.2 in
    elim (Bool-cases (prev.magic == magic_free)) [
      | inl e ↦
          rw (kheap_chunk_is_free_lem prev t.1, merge_prev, e)
            (subst (λ left. Leaves m b left (merge_next (merged prev c) after)) (ground arith)
              (merge_next-Leaves m b (merged prev c) after
                (t.0, t.1, subst (λ k. Tiled k after b) (omega arith) t.2.2) hb (ground arith)))
      | inr e ↦
          rw (kheap_chunk_is_free_lem prev t.1, merge_prev, e)
            (cons-Leaves m b prev (blocks after) (merge_next c after) t.0 t.1
              (merge_next-Leaves _ b c after t.2 hb f))
    ]

blocks-cons :
    (c : Chunk) (cs ds : List Chunk)
    → blocks (c ∷ []) ++ (blocks cs ++ blocks ds) ≡ blocks (c ∷ cs) ++ blocks ds
blocks-cons c cs ds = ground arith

free_behind-Leaves :
    (before after : List Chunk) (prev c : Chunk) (m b : ℕ)
    → Tiled m (prev ∷ (before ++ (c ∷ after))) b
    → b < u64_mod
    → IsAllocated c
    → Leaves m b
        (blocks (prev ∷ before) ++ blocks after)
        (free_behind c.addr prev (before ++ (c ∷ after)))
free_behind-Leaves [] after prev c m b t hb f = rw (free_behind-here prev c after f) (
    merge_prev-Leaves m b prev (record c { magic = magic_free }) after
      (t.0, t.1, (t.2.0, inl refl, t.2.2)) hb refl)
free_behind-Leaves (x ∷ before) after prev c m b t hb f =
    rw
      (free_behind-further prev x c.addr (before ++ (c ∷ after)) (addr-ne before after x c _ b t.2))
      (subst
        (λ left. Leaves m b left (cons_some prev (free_behind c.addr x (before ++ (c ∷ after)))))
        (blocks-cons prev (x ∷ before) after)
        (cons-Leaves m b prev _ _ t.0 t.1
          (free_behind-Leaves before after x c (m + header_size + prev.size) b t.2 hb f)))

free_chunk-Leaves :
    (before after : List Chunk) (c : Chunk) (a b : ℕ)
    → Tiled a (before ++ (c ∷ after)) b
    → b < u64_mod
    → IsAllocated c
    → Leaves a b (blocks before ++ blocks after) (free_chunk c.addr (before ++ (c ∷ after)))
unfolding free_chunk
free_chunk-Leaves [] after c a b t hb f =
    rw (free_chunk-here c after f)
      (merge_next-Leaves a b (record c { magic = magic_free }) after (t.0, inl refl, t.2) hb refl)
free_chunk-Leaves (x ∷ before) after c a b t hb f =
    rw (free_chunk-further x c.addr (before ++ (c ∷ after)) (addr-ne before after x c a b t))
      (free_behind-Leaves before after x c a b t hb f)

-- What `kmem_free` leaves: chunks that tile the memory from `a` to `b`, with the allocated blocks
-- `left`, and one free chunk between the chunks `before` and `after`.
abbrev pub Freed : ℕ → ℕ → List (ℕ × ℕ) → List Chunk → List Chunk → Option KernelHeap → Type 0
Freed a b left before after none = ⊥
Freed a b left before after (some h) =
    Tiled a h.chunks b
    × (blocks h.chunks ≡ left)
    × ((c : Chunk) × IsFree c × (h.chunks ≡ before ++ (c ∷ after)))

Leaves-Freed :
    (a b : ℕ) (left : List (ℕ × ℕ)) (before after : List Chunk) (h : KernelHeap)
    (r : Option (List Chunk))
    → Leaves a b left r
    → Merges before after r
    → Freed a b left before after (with_chunks h r)
unfolding with_chunks
Leaves-Freed a b left before after h none l m = l
Leaves-Freed a b left before after h (some cs) l (c, f, e) = (l.0, l.1, (c, f, some_inj e))

-- On a heap whose chunks tile the memory from `a` to `b`, `kmem_free` of the pointer of an
-- allocated chunk, one that carries no header of `kmem_alloc_aligned`, does not panic. It merges the
-- chunk with the chunk before it, if that is free, and the chunk behind it, if that is free: one free
-- chunk is left between the others, which are unchanged. The chunks tile the same memory, and the
-- allocated blocks are those of before, unchanged and in order, less the one that is freed.
pub free-Freed :
    (before after : List Chunk) (c : Chunk) (a b : ℕ) (h : KernelHeap)
    → h.chunks ≡ before ++ (c ∷ after)
    → Tiled a (before ++ (c ∷ after)) b
    → b < u64_mod
    → IsAllocated c
    → h.aligned (c.addr + header_size) ≡ none
    → Freed a b
        (blocks before ++ blocks after)
        (without_free_last before)
        (without_free_first after)
        (kmem_free (c.addr + header_size) h)
unfolding kmem_free free_target
free-Freed before after c a b h eh t hb f plain =
    let (m, l, r) = Tiled-split before (c ∷ after) a b t in
    let le = Tiled-le after _ b r.2 in
    let target : sub_u64 (c.addr + header_size) header_size ≡ c.addr = omega arith in
    rw (plain, free_target, target, eh)
      (Leaves-Freed a b _ _ _ h _ (free_chunk-Leaves before after c a b t hb f)
        (free_chunk-Merges before after c a b t f))
