-- ===== src/KernelHeap/On32.antt =====
-- The multiples of 32 among the addresses and sizes of the kernel heap of kernel/k_memory.c.
use yomotsu.Base.{
  ℕ, ◌+◌, ◌%◌, ◌≡◌, inl, inr, true, false, ◌&&◌, Option, none, some, List, [], ◌∷◌, ◌++◌, arith,
  leb, ◌==◌, Bool-cases, Option-cases, add_u64, sub_u64,
}
use yomotsu.KernelHeap.{
  Chunk, Search, Alloc, KernelHeap, past, first_fit, kheap_chunk_is_free, kheap_expand, take_chunk,
  remainder, place, kmem_alloc, align_up, chunk_min_size, header_size, page_size, merged,
  merge_next, merge_prev, cons_some, release, free_behind, free_chunk, with_chunks, kmem_free,
  magic_allocated,
}

-- The chunks start at multiples of 32 and have sizes that are such.
abbrev pub AllOn32 : List Chunk → Type 0
AllOn32 [] = Unit
AllOn32 (c ∷ cs) = (c.addr % 32 ≡ 0) × (c.size % 32 ≡ 0) × AllOn32 cs

abbrev pub RegionOn32 : Option ℕ → Type 0
RegionOn32 none = Unit
RegionOn32 (some region) = region % 32 ≡ 0

abbrev HitOn32 : Search → Type 0
HitOn32 Search.panicked = Unit
HitOn32 Search.exhausted = Unit
HitOn32 (Search.hit before p after) = AllOn32 before × AllOn32 (p ∷ after)

-- The pointer that is returned, and the chunks that are left.
abbrev pub PointerOn32 : Alloc → Type 0
PointerOn32 Alloc.panicked = Unit
PointerOn32 Alloc.oom = Unit
PointerOn32 (Alloc.got ptr h) = (ptr % 32 ≡ 0) × AllOn32 h.chunks

AllOn32-append : (xs ys : List Chunk) → AllOn32 xs → AllOn32 ys → AllOn32 (xs ++ ys)
AllOn32-append [] ys x y = y
AllOn32-append (c ∷ xs) ys x y = (x.0, x.1, AllOn32-append xs ys x.2 y)

past-HitOn32 :
    (c : Chunk) (s : Search)
    → (c.addr % 32 ≡ 0) × (c.size % 32 ≡ 0)
    → HitOn32 s
    → HitOn32 (past c s)
unfolding past
past-HitOn32 c Search.panicked on h = h
past-HitOn32 c Search.exhausted on h = h
past-HitOn32 c (Search.hit before p after) on h = ((on.0, on.1, h.0), h.1)

first_fit-HitOn32 : (size : ℕ) (cs : List Chunk) → AllOn32 cs → HitOn32 (first_fit size cs)
unfolding first_fit
first_fit-HitOn32 size [] on = tt
first_fit-HitOn32 size (c ∷ cs) on = elim (Option-cases (kheap_chunk_is_free c)) [
  | inl n ↦ rw (n, first_fit) tt
  | inr (free, n) ↦ elim (Bool-cases (free && leb size c.size)) [
    | inl e ↦ rw (n, first_fit, e) (tt, on)
    | inr e ↦ rw (n, first_fit, e) (past-HitOn32 c _ (on.0, on.1) (first_fit-HitOn32 size cs on.2))
  ]
]

take_chunk-PointerOn32 :
    (size : ℕ) (before : List Chunk) (p : Chunk) (after : List Chunk) (aligned : ℕ → Option ℕ)
    → size % 32 ≡ 0
    → AllOn32 before
    → AllOn32 (p ∷ after)
    → PointerOn32 (take_chunk size before p after aligned)
unfolding take_chunk remainder
take_chunk-PointerOn32 size before p after aligned whole b on =
    let addr = on.0 in
    let room = on.1 in
    elim (Bool-cases (leb (chunk_min_size + header_size) (sub_u64 p.size size))) [
      | inl e ↦ rw e (
        omega arith,
        AllOn32-append before _ b
            (addr, whole, (omega (arith, addr, whole), omega (arith, room, whole), on.2)),
      )
      | inr e ↦ rw e (omega arith, AllOn32-append before _ b on)
    ]

align_up-on32 : (x : ℕ) → align_up x 32 % 32 ≡ 0
align_up-on32 x = omega arith

kheap_expand-size : (x : ℕ) → sub_u64 (align_up x page_size) header_size % 32 ≡ 0
kheap_expand-size x = omega arith

place-PointerOn32 :
    (size : ℕ) (region : Option ℕ) (h : KernelHeap) (s : Search)
    → size % 32 ≡ 0
    → AllOn32 h.chunks
    → RegionOn32 region
    → HitOn32 s
    → PointerOn32 (place size region h s)
unfolding place kheap_expand
place-PointerOn32 size region h Search.panicked whole all r on = tt
place-PointerOn32 size region h (Search.hit before p after) whole all r on =
    take_chunk-PointerOn32 size before p after h.aligned whole on.0 on.1
place-PointerOn32 size none h Search.exhausted whole all r on = tt
place-PointerOn32 size (some region) h Search.exhausted whole all r on =
    take_chunk-PointerOn32 size h.chunks (kheap_expand size region) [] _ whole all
      (r, kheap_expand-size (add_u64 size header_size), tt)

-- `kmem_alloc` keeps that, and returns a multiple of 32, if the region that it may get starts at one.
pub kmem_alloc-PointerOn32 :
    (request : ℕ) (region : Option ℕ) (h : KernelHeap)
    → AllOn32 h.chunks
    → RegionOn32 region
    → PointerOn32 (kmem_alloc request region h)
unfolding kmem_alloc
kmem_alloc-PointerOn32 request region h on r =
    let size = align_up request 32 in
    place-PointerOn32 size region h (first_fit size h.chunks) (align_up-on32 request) on r
      (first_fit-HitOn32 size h.chunks on)

abbrev LeftOn32 : Option (List Chunk) → Type 0
LeftOn32 none = Unit
LeftOn32 (some cs) = AllOn32 cs

merged-size :
    (prev c : Chunk)
    → prev.size % 32 ≡ 0
    → c.size % 32 ≡ 0
    → add_u64 (add_u64 prev.size c.size) header_size % 32 ≡ 0
merged-size prev c a b = omega arith

merge_next-LeftOn32 :
    (c : Chunk) (after : List Chunk) → AllOn32 (c ∷ after) → LeftOn32 (merge_next c after)
unfolding merge_next merged
merge_next-LeftOn32 c [] on = on
merge_next-LeftOn32 c (n ∷ after) on = elim (Option-cases (kheap_chunk_is_free n)) [
  | inl e ↦ rw (e, merge_next) tt
  | inr (true, e) ↦ rw (e, merge_next) (on.0, merged-size c n on.1 on.2.1, on.2.2)
  | inr (false, e) ↦ rw (e, merge_next) on
]

cons-LeftOn32 :
    (c : Chunk) (r : Option (List Chunk))
    → (c.addr % 32 ≡ 0) × (c.size % 32 ≡ 0)
    → LeftOn32 r
    → LeftOn32 (cons_some c r)
unfolding cons_some
cons-LeftOn32 c none on l = tt
cons-LeftOn32 c (some cs) on l = (on.0, on.1, l)

merge_prev-LeftOn32 :
    (prev c : Chunk) (after : List Chunk)
    → AllOn32 (prev ∷ c ∷ after)
    → LeftOn32 (merge_prev prev c after)
unfolding merge_prev merged
merge_prev-LeftOn32 prev c after on = elim (Option-cases (kheap_chunk_is_free prev)) [
  | inl e ↦ rw (e, merge_prev) tt
  | inr (true, e) ↦
      rw (e, merge_prev)
        (merge_next-LeftOn32 _ after (on.0, merged-size prev c on.1 on.2.1, on.2.2))
  | inr (false, e) ↦
      rw (e, merge_prev) (cons-LeftOn32 prev _ (on.0, on.1) (merge_next-LeftOn32 c after on.2))
]

free_behind-LeftOn32 :
    (addr : ℕ) (prev : Chunk) (cs : List Chunk)
    → AllOn32 (prev ∷ cs)
    → LeftOn32 (free_behind addr prev cs)
unfolding free_behind release
free_behind-LeftOn32 addr prev [] on = tt
free_behind-LeftOn32 addr prev (c ∷ cs) on = elim (Bool-cases (c.addr == addr)) [
  | inr e ↦
      rw (e, free_behind) (cons-LeftOn32 prev _ (on.0, on.1) (free_behind-LeftOn32 addr c cs on.2))
  | inl e ↦ elim (Bool-cases (c.magic == magic_allocated)) [
    | inl m ↦ rw (e, m, free_behind) (merge_prev-LeftOn32 prev _ cs on)
    | inr m ↦ rw (e, m, free_behind) tt
  ]
]

free_chunk-LeftOn32 : (addr : ℕ) (cs : List Chunk) → AllOn32 cs → LeftOn32 (free_chunk addr cs)
unfolding free_chunk release
free_chunk-LeftOn32 addr [] on = tt
free_chunk-LeftOn32 addr (c ∷ cs) on = elim (Bool-cases (c.addr == addr)) [
  | inr e ↦ rw (e, free_chunk) (free_behind-LeftOn32 addr c cs on)
  | inl e ↦ elim (Bool-cases (c.magic == magic_allocated)) [
    | inl m ↦ rw (e, m, free_chunk) (merge_next-LeftOn32 _ cs on)
    | inr m ↦ rw (e, m, free_chunk) tt
  ]
]

abbrev pub HeapOn32 : Option KernelHeap → Type 0
HeapOn32 none = Unit
HeapOn32 (some h) = AllOn32 h.chunks

with_chunks-HeapOn32 :
    (h : KernelHeap) (r : Option (List Chunk)) → LeftOn32 r → HeapOn32 (with_chunks h r)
unfolding with_chunks
with_chunks-HeapOn32 h none l = tt
with_chunks-HeapOn32 h (some cs) l = l

-- `kmem_free` keeps that.
pub kmem_free-HeapOn32 : (ptr : ℕ) (h : KernelHeap) → AllOn32 h.chunks → HeapOn32 (kmem_free ptr h)
unfolding kmem_free
kmem_free-HeapOn32 ptr h on = with_chunks-HeapOn32 h _ (free_chunk-LeftOn32 _ h.chunks on)
