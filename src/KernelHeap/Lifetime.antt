-- ===== src/KernelHeap/Lifetime.antt =====
-- The kernel heap of kernel/k_memory.c from `kmem_heap_init` on.
use yomotsu.Base.{
  ℕ, ◌+◌, ◌-◌, ◌<◌, ◌≡◌, ◌⊎◌, inl, refl, sym, subst, Bool, true, false, ◌&&◌, Option, none, some,
  List, [], ◌∷◌, ◌++◌, if◌then◌else◌, u64_mod,
}
use yomotsu.KernelHeap.{
  Chunk, KernelHeap, Alloc, kmem_alloc, kmem_free, magic_free, header_size, page_size,
}
use yomotsu.KernelHeap.Tiling.{Tiled, IsAllocated}
use yomotsu.KernelHeap.Allocate.{Allocated, alloc-Allocated}
use yomotsu.KernelHeap.Freeing.{Freed, free-Freed}

-- The one chunk that `kmem_heap_init` makes.
abbrev pub initial_heap : ℕ → KernelHeap
initial_heap base = record {
  chunks = record { addr = base; size = page_size - header_size; magic = magic_free } ∷ [];
  aligned = λ p. none;
}

-- `kmem_heap_init`: the address found, whether there was a frame, and whether it could be mapped
-- are arguments; `none` is the PANIC of one of its three VERIFYs.
pub kmem_heap_init : Option ℕ → Bool → Bool → Option KernelHeap
kmem_heap_init none frame mapped = none
kmem_heap_init (some base) frame mapped = if frame && mapped then some (initial_heap base) else none

pub kmem_heap_init-initial_heap :
    (a : ℕ) → kmem_heap_init (some a) true true ≡ some (initial_heap a)
unfolding kmem_heap_init
kmem_heap_init-initial_heap a = refl

-- The end of the memory that the chunks take up from `a` on.
abbrev pub heap_end : ℕ → List Chunk → ℕ
heap_end a [] = a
heap_end a (c ∷ cs) = heap_end (a + header_size + c.size) cs

heap_end-Tiled : (cs : List Chunk) (a b : ℕ) → Tiled a cs b → b ≡ heap_end a cs
heap_end-Tiled [] a b t = sym t
heap_end-Tiled (c ∷ cs) a b t = heap_end-Tiled cs (a + header_size + c.size) b t.2

abbrev pub IsTiled : ℕ → KernelHeap → Type 0
IsTiled a h = Tiled a h.chunks (heap_end a h.chunks)

-- A call that returns: an allocation, where the kernel adds memory at the end or none, or a release
-- of an allocated chunk by the pointer that `kmem_alloc` gave.
pub data Step (a : ℕ) (h : KernelHeap) : KernelHeap → Type 0 where
  alloc :
      (request ptr : ℕ) (region : Option ℕ) {h' : KernelHeap}
      → heap_end a h.chunks + request + header_size + 32 + page_size < u64_mod
      → (region ≡ none) ⊎ (region ≡ some (heap_end a h.chunks))
      → kmem_alloc request region h ≡ Alloc.got ptr h'
      → Step a h h'
  free :
      (before after : List Chunk) (c : Chunk) {h' : KernelHeap}
      → heap_end a h.chunks < u64_mod
      → h.chunks ≡ before ++ (c ∷ after)
      → IsAllocated c
      → h.aligned (c.addr + header_size) ≡ none
      → kmem_free (c.addr + header_size) h ≡ some h'
      → Step a h h'

pub data Reach (a : ℕ) (h : KernelHeap) : KernelHeap → Type 0 where
  here : Reach a h h
  more : {u v : KernelHeap} → Reach a h u → Step a u v → Reach a h v

IsTiled-of : (a b : ℕ) (h : KernelHeap) → Tiled a h.chunks b → IsTiled a h
IsTiled-of a b h t = subst (λ k. Tiled a h.chunks k) (heap_end-Tiled h.chunks a b t) t

Step-IsTiled : {a : ℕ} {h h' : KernelHeap} → Step a h h' → IsTiled a h → IsTiled a h'
Step-IsTiled {a} {h} {h'} (alloc request ptr region room grows e) t =
    let got =
      subst (Allocated request a _ region h.chunks) e
        (alloc-Allocated request a (heap_end a h.chunks) region h t room grows) in
    IsTiled-of a got.0 h' got.2
Step-IsTiled {a} {h} {h'} (free before after c low at allocated plain e) t =
    let left = subst (Freed a _ _ _ _) e (
      free-Freed before after c a (heap_end a h.chunks) h at
        (subst (λ cs. Tiled a cs (heap_end a h.chunks)) at t) low allocated plain) in
    IsTiled-of a (heap_end a h.chunks) h' left.0

abbrev IsTiledIf : ℕ → Option KernelHeap → Type 0
IsTiledIf a none = Unit
IsTiledIf a (some h) = IsTiled a h

init-IsTiled :
    (a : ℕ) (frame mapped : Bool) {h : KernelHeap}
    → kmem_heap_init (some a) frame mapped ≡ some h
    → IsTiled a h
unfolding kmem_heap_init
init-IsTiled a true true e = subst (IsTiledIf a) e (refl, inl refl, refl)
init-IsTiled a true false e = cc
init-IsTiled a false mapped e = cc

-- After `kmem_heap_init` and any sequence of allocations and releases of allocated chunks, of a
-- heap to which the kernel adds memory only at its end and below 2 ^ 64, the chunks lie back to
-- back from the start of the heap to its end, each with a valid magic.
pub Reach-IsTiled :
    (a : ℕ) (frame mapped : Bool) {h h' : KernelHeap}
    → kmem_heap_init (some a) frame mapped ≡ some h
    → Reach a h h'
    → IsTiled a h'
Reach-IsTiled a frame mapped e here = init-IsTiled a frame mapped e
Reach-IsTiled a frame mapped e (more r st) = Step-IsTiled st (Reach-IsTiled a frame mapped e r)
