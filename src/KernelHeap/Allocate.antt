-- ===== src/KernelHeap/Allocate.antt =====
-- `kmem_alloc` on a heap that tiles its memory.
use yomotsu.Base.{
  ℕ, ◌+◌, ◌≤◌, ◌<◌, ◌≡◌, ◌⊎◌, inl, inr, refl, sym, ap, ◌∙◌, Option, subst, none, some, List, [],
  ◌∷◌, ◌++◌, arith, leb, Bool-cases, u64_mod, sub_u64, add_u64, update, leb→le, append-nil,
}
use yomotsu.KernelHeap.{
  Chunk, KernelHeap, Search, Alloc, first_fit, kheap_expand, remainder, take_chunk, place,
  kmem_alloc, magic_allocated, header_size, chunk_min_size, align_up, page_size,
}
use yomotsu.KernelHeap.Tiling.{
  Tiled, blocks, AllSmall, IsFree, Tiled-le, Tiled-split, Tiled-append, blocks-append, Found,
  first_fit-Found,
}

-- The list `new` is `old` with one block more, of at least `size` bytes.
pub record OneMore (size ptr : ℕ) (old new : List Chunk) : Type 0 where
  pub front : List (ℕ × ℕ)
  pub back : List (ℕ × ℕ)
  pub room : ℕ
  pub old_blocks : blocks old ≡ front ++ back
  pub new_blocks : blocks new ≡ front ++ ((ptr, room) ∷ back)
  pub fits : size ≤ room

-- A chunk that is free, between two parts of the list, is replaced by one that is allocated and
-- perhaps a free rest.
OneMore-split :
    (size ptr room : ℕ) (before after mid : List Chunk) (p : Chunk)
    → IsFree p
    → size ≤ room
    → blocks mid ≡ (ptr, room) ∷ []
    → OneMore size ptr (before ++ (p ∷ after)) (before ++ (mid ++ after))
OneMore-split size ptr room before after mid p f fits e = record {
  front = blocks before;
  back = blocks after;
  room = room;
  old_blocks = blocks-append before (p ∷ after) ∙ ap (λ bs. blocks before ++ bs) (ground arith);
  new_blocks =
      blocks-append before (mid ++ after)
      ∙ ap (λ bs. blocks before ++ bs) (blocks-append mid after ∙ ap (λ bs. bs ++ blocks after) e);
  fits = fits;
}

-- What `take_chunk` and `kmem_alloc` grant: the chunks tile the same memory, or memory with an end
-- further up, and there is one block more.
abbrev pub Granted : ℕ → ℕ → ℕ → List Chunk → Alloc → Type 0
Granted size a b old Alloc.panicked = ⊥
Granted size a b old Alloc.oom = ⊥
Granted size a b old (Alloc.got ptr h) = Tiled a h.chunks b × OneMore size ptr old h.chunks

take_chunk-Granted :
    (size a b : ℕ) (before after : List Chunk) (p : Chunk) (aligned : ℕ → Option ℕ)
    → Tiled a (before ++ (p ∷ after)) b
    → b < u64_mod
    → IsFree p
    → size ≤ p.size
    → Granted size a b (before ++ (p ∷ after)) (take_chunk size before p after aligned)
unfolding take_chunk remainder
take_chunk-Granted size a b before after p aligned t hb f fits =
    let (m, l, r) = Tiled-split before (p ∷ after) a b t in
    let le = Tiled-le after _ b r.2 in
    elim (Bool-cases (leb (chunk_min_size + header_size) (sub_u64 p.size size))) [
      | inl e ↦ rw e (
        Tiled-append before _ a m b l (
          r.0,
          inr refl,
          (omega arith, inl refl, subst (λ k. Tiled k after b) (omega (arith, leb→le _ _ e)) r.2),
        ),
        OneMore-split size _ size before after
            (record p { size = size; magic = magic_allocated } ∷ remainder size p ∷ []) p f
            (omega arith) (ground arith),
      )
      | inr e ↦ rw e (
        Tiled-append before _ a m b l (r.0, inr refl, r.2),
        OneMore-split size _ p.size before after (record p { magic = magic_allocated } ∷ []) p f
            fits (ground arith),
      )
    ]

expanded-Tiled :
    (size a b : ℕ) (cs : List Chunk)
    → Tiled a cs b
    → b + size + header_size + page_size < u64_mod
    → (b' : ℕ) × Tiled a (cs ++ (kheap_expand size b ∷ [])) b'
      × (size ≤ (kheap_expand size b).size)
      × (b' < u64_mod)
      × (b ≤ b')
unfolding kheap_expand
expanded-Tiled size a b cs t hb = (
  b + header_size + (kheap_expand size b).size,
  Tiled-append cs (kheap_expand size b ∷ []) a b _ t (refl, inl refl, refl),
  omega arith,
  omega arith,
  omega arith,
)

-- What `kmem_alloc` does on a heap of valid chunks from `a` to `b`: no PANIC; the null pointer only
-- if no free chunk has room and the kernel has no more memory to give; else one block more.
abbrev pub Allocated : ℕ → ℕ → ℕ → Option ℕ → List Chunk → Alloc → Type 0
Allocated request a b region old Alloc.panicked = ⊥
Allocated request a b region old Alloc.oom = (region ≡ none) × AllSmall (align_up request 32) old
Allocated request a b region old (Alloc.got ptr h) =
    (b' : ℕ) × (b ≤ b') × Tiled a h.chunks b' × OneMore request ptr old h.chunks

Granted-Allocated :
    (request size a b b' : ℕ) (region : Option ℕ) (old older : List Chunk) (r : Alloc)
    → request ≤ size
    → b ≤ b'
    → blocks older ≡ blocks old
    → Granted size a b' old r
    → Allocated request a b region older r
Granted-Allocated request size a b b' region old older (Alloc.got ptr h') le up e g = (
  b',
  up,
  g.0,
  record {
    front = g.1.front;
    back = g.1.back;
    room = g.1.room;
    old_blocks = e ∙ g.1.old_blocks;
    new_blocks = g.1.new_blocks;
    fits = omega (arith, g.1.fits);
  },
)
Granted-Allocated request size a b b' region old older Alloc.oom le up e g = absurd g
Granted-Allocated request size a b b' region old older Alloc.panicked le up e g = absurd g

same_region : (k b : ℕ) → (some k ≡ none) ⊎ (some k ≡ some b) → k ≡ b
same_region k b (inl e) = cc
same_region k b (inr e) = cc

place-Allocated :
    (request a b : ℕ) (region : Option ℕ) (h : KernelHeap) (s : Search)
    → Tiled a h.chunks b
    → b + request + header_size + 32 + page_size < u64_mod
    → (region ≡ none) ⊎ (region ≡ some b)
    → Found (align_up request 32) h.chunks s
    → Allocated request a b region h.chunks (place (align_up request 32) region h s)
unfolding place kheap_expand
place-Allocated request a b region h Search.panicked t hb g f = absurd f
place-Allocated request a b region h (Search.hit before p after) t hb g f =
    Granted-Allocated request (align_up request 32) a b b region (before ++ (p ∷ after)) h.chunks
      (take_chunk (align_up request 32) before p after h.aligned) (omega arith) (omega arith)
      (ap blocks f.0)
      (take_chunk-Granted (align_up request 32) a b before after p h.aligned
        (subst (λ cs. Tiled a cs b) f.0 t) (omega arith) f.1 f.2)
place-Allocated request a b none h Search.exhausted t hb g f = (refl, f)
place-Allocated request a b (some k) h Search.exhausted t hb g f =
    let size = align_up request 32 in
    let new = kheap_expand size b in
    let (b', t', fits, hb', up) = expanded-Tiled size a b h.chunks t (omega arith) in
    rw (same_region k b g) (
      Granted-Allocated request size a b b' (some b) (h.chunks ++ (new ∷ [])) h.chunks
        (take_chunk size h.chunks new [] (update h.aligned (add_u64 b header_size) none))
        (omega arith) up (sym (blocks-append h.chunks (new ∷ []) ∙ append-nil (blocks h.chunks)))
        (take_chunk-Granted size a b' h.chunks [] new _ t' hb' refl fits))

-- On a heap whose chunks tile the memory from `a` to `b`, to which the kernel adds memory at its
-- end or none, and with no word that overflows, `kmem_alloc` does not panic. It returns the null
-- pointer only if no free chunk has room for the request, rounded up to 32, and the kernel has no
-- memory to add. Else the chunks tile the memory still, up to the same or a higher end, and the
-- allocated blocks are those of before, unchanged and in order, and one more, which starts at the
-- pointer returned and has at least the bytes asked for.
pub alloc-Allocated :
    (request a b : ℕ) (region : Option ℕ) (h : KernelHeap)
    → Tiled a h.chunks b
    → b + request + header_size + 32 + page_size < u64_mod
    → (region ≡ none) ⊎ (region ≡ some b)
    → Allocated request a b region h.chunks (kmem_alloc request region h)
unfolding kmem_alloc
alloc-Allocated request a b region h t hb g =
    place-Allocated request a b region h (first_fit (align_up request 32) h.chunks) t hb g
      (first_fit-Found (align_up request 32) h.chunks a b t)
