-- ===== src/KernelHeap/Tests.antt =====
-- The kernel heap of kernel/k_memory.c at a concrete state.
use yomotsu.Base.{
  ◌≤◌, ◌<◌, ◌%◌, ℕ, ◌+◌, ◌%◌, ◌≤◌, ◌<◌, ◌≡◌, ◌⊎◌, inl, inr, refl, true, none, some, [], ◌∷◌, arith,
  update,
}
use yomotsu.KernelHeap.{
  Chunk, KernelHeap, Alloc, kmem_alloc, kmem_free, magic_free, magic_allocated, free_target,
  first_fit, past, kheap_chunk_is_free, place, take_chunk, remainder,
}
use yomotsu.KernelHeap.Tiling.{Tiled, blocks}
use yomotsu.KernelHeap.Allocate.{Allocated, alloc-Allocated}
use yomotsu.KernelHeap.Freeing.{Freed, free-Freed}
use yomotsu.KernelHeap.Lifetime.{
  kmem_heap_init-initial_heap, initial_heap, IsTiled, Step, Reach, Reach-IsTiled,
}
use yomotsu.KernelHeap.Aligned.{AlignedAlloc, aligned_header_size, kmem_alloc_aligned, aligned_lem}

-- An allocated chunk of 64 bytes and a free one of 256 behind it.
abbrev in_use : Chunk
in_use = record { addr = 4096; size = 64; magic = magic_allocated }

abbrev unused : Chunk
unused = record { addr = 4192; size = 256; magic = magic_free }

abbrev small_heap : KernelHeap
small_heap = record { chunks = in_use ∷ unused ∷ []; aligned = λ _. none }

small_heap-Tiled : Tiled 4096 (in_use ∷ unused ∷ []) 4480
small_heap-Tiled = (refl, inr refl, (refl, inl refl, refl))

alloc-Allocated_example :
    Allocated 100 4096 4480
      (some 4480)
      (in_use ∷ unused ∷ [])
      (kmem_alloc 100 (some 4480) small_heap)
alloc-Allocated_example =
    alloc-Allocated 100 4096 4480 (some 4480) small_heap small_heap-Tiled (omega arith) (inr refl)

free-Freed_example : Freed 4096 4480 (blocks (unused ∷ [])) [] [] (kmem_free 4128 small_heap)
free-Freed_example =
    free-Freed [] (unused ∷ []) in_use 4096 4480 small_heap refl small_heap-Tiled (omega arith) refl
      refl

-- What an allocation of 128 bytes leaves.
abbrev allocated_heap : KernelHeap
allocated_heap = record {
  chunks =
      in_use
      ∷ record unused { size = 128; magic = magic_allocated }
      ∷ record { addr = 4352; size = 96; magic = magic_free }
      ∷ [];
  aligned = update (λ _. none) 4384 none;
}

small_heap-alloc : kmem_alloc 128 none small_heap ≡ Alloc.got 4224 allocated_heap
unfolding kmem_alloc first_fit past kheap_chunk_is_free place take_chunk remainder
small_heap-alloc = refl

aligned_lem_example :
    (ret : ℕ) × (h'' : KernelHeap) × (kmem_alloc_aligned 64 64 none small_heap
      ≡ AlignedAlloc.returned (Alloc.got ret h''))
    × (ret % 64 ≡ 0)
    × (4224 ≤ ret)
    × (ret + 64 < 4224 + (64 + 64))
    × (h''.chunks ≡ allocated_heap.chunks)
    × ((ret ≡ 4224) ⊎ ((4224 + aligned_header_size ≤ ret) × (free_target h'' ret ≡ 4224)))
aligned_lem_example =
    aligned_lem 64 64 1 4224 none small_heap allocated_heap refl (refl, refl, (refl, refl, tt)) tt
      (omega arith) (omega arith) small_heap-alloc

abbrev first_heap : KernelHeap
first_heap = initial_heap 1048576

abbrev second_heap : KernelHeap
second_heap = record {
  chunks =
      record { addr = 1048576; size = 64; magic = magic_allocated }
      ∷ record { addr = 1048672; size = 2097024; magic = magic_free }
      ∷ [];
  aligned = update (λ _. none) 1048704 none;
}

first_heap-alloc : kmem_alloc 50 none first_heap ≡ Alloc.got 1048608 second_heap
unfolding kmem_alloc first_fit past kheap_chunk_is_free place take_chunk remainder
first_heap-alloc = refl

Reach-IsTiled_example : IsTiled 1048576 second_heap
Reach-IsTiled_example =
    Reach-IsTiled 1048576 true true (kmem_heap_init-initial_heap 1048576)
      (Reach.more Reach.here (Step.alloc 50 1048608 none (omega arith) (inl refl) first_heap-alloc))
