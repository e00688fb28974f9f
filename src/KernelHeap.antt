-- ===== src/KernelHeap.antt =====
-- The kernel heap, the part "Kernel Heap" of kernel/k_memory.c: `kmem_alloc`, `kmem_free` and
-- their helpers. The chunk list is the list of the chunks in the order of `chunk_list_head`, each
-- with its address. `kheap_lock` is held throughout each operation.

mod Tests
pub mod Tiling
pub mod Allocate
pub mod Merging
pub mod Freeing
pub mod Lifetime
pub mod Masks
pub mod On32
pub mod Aligned
use yomotsu.Base.{
  ℕ, zero, suc, ◌+◌, ◌-◌, ◌*◌, ◌%◌, Bool, true, false, ◌&&◌, Option, none, some, List, [], ◌∷◌,
  ◌++◌, leb, ltb, ◌==◌, if◌then◌else◌, update, add_u64, sub_u64,
}

abbrev pub page_size : ℕ
page_size = 2048 * 1024

abbrev pub magic_free : ℕ
magic_free = 0xDEADBEEFDEADBEEF

abbrev pub magic_allocated : ℕ
magic_allocated = 0xDEADBABADEADBABA

-- `sizeof(kheap_chunk_t)`: "must be 32 bytes long".
abbrev pub header_size : ℕ
header_size = 32

abbrev pub chunk_min_size : ℕ
chunk_min_size = 32

-- `kheap_chunk_t`, with its address in place of its list node.
pub record Chunk : Type 0 where
  pub addr : ℕ
  pub size : ℕ
  pub magic : ℕ

-- `aligned p` is the `free_ptr` of a header of `kmem_alloc_aligned` that lies below `p` with its
-- magic intact: the words at `p - 16` and `p - 8`, which are also the size and the magic of a
-- chunk at `p - 32`.
pub record KernelHeap : Type 0 where
  pub chunks : List Chunk
  pub aligned : ℕ → Option ℕ

-- `ALIGNDOWN` and `ALIGNUP`, for `r` a power of two, as it is wherever the code calls them: there
-- the mask `x & ~(r - 1)` clears the remainder by `r`.
abbrev pub align_down : ℕ → ℕ → ℕ
align_down x r = x - x % r

abbrev pub align_up : ℕ → ℕ → ℕ
align_up x r = add_u64 (align_down (sub_u64 x 1) r) r

-- `none` is the PANIC of an invalid magic.
pub kheap_chunk_is_free : Chunk → Option Bool
kheap_chunk_is_free c =
    if c.magic == magic_free
    then some true
    else if c.magic == magic_allocated
    then some false
    else none

-- Where the loop of `kmem_alloc` stops: at a bad magic, at the end of the list, or at a chunk,
-- which is given with the chunks before and after it.
pub data Search : Type 0 where
  panicked exhausted : Search
  hit : List Chunk → Chunk → List Chunk → Search

pub past : Chunk → Search → Search
past c Search.panicked = Search.panicked
past c Search.exhausted = Search.exhausted
past c (Search.hit before p after) = Search.hit (c ∷ before) p after

pub first_fit : ℕ → List Chunk → Search
unfolding past
first_fit size [] = Search.exhausted
first_fit size (c ∷ rest) = elim (kheap_chunk_is_free c) [
  | none ↦ Search.panicked
  | some free ↦
      if free && leb size c.size then Search.hit [] c rest else past c (first_fit size rest)
]

-- `list_insert(&chunk->chunk_list_node, chunk_list_head.prev)` and the header that is written.
-- The region is what `vm_kern_alloc_anywhere` returned, where it returns: Paging/Kernel/Pages shows
-- when it waits for its own lock instead.
pub kheap_expand : ℕ → ℕ → Chunk
kheap_expand min_expand_size region = record {
  addr = region;
  size = sub_u64 (align_up (add_u64 min_expand_size header_size) page_size) header_size;
  magic = magic_free;
}

-- What `kmem_alloc` returns: a pointer, or the null pointer, and the heap that it leaves.
pub data Alloc : Type 0 where
  panicked oom : Alloc
  got : ℕ → KernelHeap → Alloc

-- The new chunk behind `p` when `p` is split.
pub remainder : ℕ → Chunk → Chunk
remainder size p = record {
  addr = add_u64 (add_u64 p.addr header_size) size;
  size = sub_u64 (sub_u64 p.size size) header_size;
  magic = magic_free;
}

-- The end of `kmem_alloc`, with the chunk `p` found: split it if the rest is large enough for a
-- chunk, and mark it allocated.
pub take_chunk : ℕ → List Chunk → Chunk → List Chunk → (ℕ → Option ℕ) → Alloc
unfolding remainder
take_chunk size before p after aligned =
    if leb (chunk_min_size + header_size) (sub_u64 p.size size)
    then Alloc.got (add_u64 p.addr header_size) (record {
      chunks =
          before ++ (record p { size = size; magic = magic_allocated } ∷ remainder size p ∷ after);
      aligned = update aligned (add_u64 (remainder size p).addr header_size) none;
    })
    else Alloc.got (add_u64 p.addr header_size) (record {
      chunks = before ++ (record p { magic = magic_allocated } ∷ after);
      aligned = aligned;
    })

-- `kmem_alloc` behind its search: the chunk found, or else a new one at the end of the list.
-- `region` is what `vm_kern_alloc_anywhere` returns if it is called.
pub place : ℕ → Option ℕ → KernelHeap → Search → Alloc
unfolding kheap_expand take_chunk
place size region h Search.panicked = Alloc.panicked
place size region h (Search.hit before p after) = take_chunk size before p after h.aligned
place size none h Search.exhausted = Alloc.oom
place size (some a) h Search.exhausted =
    take_chunk size h.chunks (kheap_expand size a) []
      (update h.aligned (add_u64 a header_size) none)

pub kmem_alloc : ℕ → Option ℕ → KernelHeap → Alloc
unfolding first_fit place
kmem_alloc request region h =
    let size = align_up request 32 in place size region h (first_fit size h.chunks)

-- `kheap_merge_chunk_into_prev`, for the chunk `c` behind `prev`.
pub merged : Chunk → Chunk → Chunk
merged prev c = record prev { size = add_u64 (add_u64 prev.size c.size) header_size }

-- The merge with the chunk behind, if there is one and it is free.
pub merge_next : Chunk → List Chunk → Option (List Chunk)
unfolding merged
merge_next c [] = some (c ∷ [])
merge_next c (next ∷ after) = elim (kheap_chunk_is_free next) [
  | none ↦ none
  | some free ↦ some (if free then merged c next ∷ after else c ∷ next ∷ after)
]

pub cons_some : Chunk → Option (List Chunk) → Option (List Chunk)
cons_some c none = none
cons_some c (some cs) = some (c ∷ cs)

-- The merge with the chunk in front, and then with the one behind.
pub merge_prev : Chunk → Chunk → List Chunk → Option (List Chunk)
unfolding merged cons_some
merge_prev prev c after = elim (kheap_chunk_is_free prev) [
  | none ↦ none
  | some free ↦
      if free then merge_next (merged prev c) after else cons_some prev (merge_next c after)
]

-- `magic == KHEAP_MAGIC_ALLOCATED`, and the magic that `kmem_free` leaves.
pub release : Chunk → Option Chunk
release c = if c.magic == magic_allocated then some (record c { magic = magic_free }) else none

-- The chunk at `addr` behind `prev` in the list: its VERIFY, its release and its merges. An
-- address at which no chunk starts is `none`: the code would read a header that is none.
pub free_behind : ℕ → Chunk → List Chunk → Option (List Chunk)
unfolding cons_some
free_behind addr prev [] = none
free_behind addr prev (c ∷ after) =
    let rest = cons_some prev (free_behind addr c after) in
    if c.addr == addr
    then elim (release c) [ none ↦ none | some freed ↦ merge_prev prev freed after ]
    else rest

pub free_chunk : ℕ → List Chunk → Option (List Chunk)
unfolding free_behind
free_chunk addr [] = none
free_chunk addr (c ∷ after) =
    if c.addr == addr
    then elim (release c) [ none ↦ none | some freed ↦ merge_next freed after ]
    else free_behind addr c after

-- The pointer that is freed when the caller frees `ptr`.
pub free_target : KernelHeap → ℕ → ℕ
free_target h ptr = elim (h.aligned ptr) [ none ↦ ptr | some p ↦ p ]

with_chunks : KernelHeap → Option (List Chunk) → Option KernelHeap
with_chunks h none = none
with_chunks h (some cs) = some (record h { chunks = cs })

-- `none` is the PANIC of an invalid free.
pub kmem_free : ℕ → KernelHeap → Option KernelHeap
unfolding free_chunk free_target with_chunks
kmem_free ptr h = with_chunks h (free_chunk (sub_u64 (free_target h ptr) header_size) h.chunks)
