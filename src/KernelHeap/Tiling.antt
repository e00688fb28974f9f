-- ===== src/KernelHeap/Tiling.antt =====
-- The chunks of the kernel heap as a tiling of the memory that it holds, and the blocks that are
-- allocated in it.
use yomotsu.Base.{
  ℕ, ◌+◌, ◌≤◌, ◌<◌, ◌≡◌, ◌⊎◌, inl, inr, refl, sym, ap, ◌&&◌, subst, some, List, [], ◌∷◌, ◌++◌,
  arith, leb, ◌==◌, if◌then◌else◌, Bool-cases,
}
use yomotsu.KernelHeap.{
  Chunk, Search, past, first_fit, kheap_chunk_is_free, magic_free, magic_allocated, header_size,
}

abbrev pub IsFree : Chunk → Type 0
IsFree c = c.magic ≡ magic_free

abbrev pub IsAllocated : Chunk → Type 0
IsAllocated c = c.magic ≡ magic_allocated

-- The chunks lie back to back from address `a` to address `b`, each with a valid magic.
abbrev pub Tiled : ℕ → List Chunk → ℕ → Type 0
Tiled a [] b = a ≡ b
Tiled a (c ∷ cs) b =
    (c.addr ≡ a) × (IsFree c ⊎ IsAllocated c) × Tiled (a + header_size + c.size) cs b

-- Pointer and size of each allocated chunk, in order.
abbrev pub blocks : List Chunk → List (ℕ × ℕ)
blocks [] = []
blocks (c ∷ cs) =
    if c.magic == magic_allocated then (c.addr + header_size, c.size) ∷ blocks cs else blocks cs

-- No free chunk has room for `size`.
abbrev pub AllSmall : ℕ → List Chunk → Type 0
AllSmall size [] = Unit
AllSmall size (c ∷ cs) = (IsFree c → c.size < size) × AllSmall size cs

pub Tiled-le : (cs : List Chunk) (a b : ℕ) → Tiled a cs b → a ≤ b
Tiled-le [] a b t = omega arith
Tiled-le (c ∷ cs) a b t = omega (arith, Tiled-le cs (a + header_size + c.size) b t.2)

pub Tiled-split :
    (xs ys : List Chunk) (a b : ℕ) → Tiled a (xs ++ ys) b → (m : ℕ) × Tiled a xs m × Tiled m ys b
Tiled-split [] ys a b t = (a, refl, t)
Tiled-split (x ∷ xs) ys a b t =
    let (m, l, r) = Tiled-split xs ys (a + header_size + x.size) b t.2 in (m, (t.0, t.1, l), r)

pub Tiled-append :
    (xs ys : List Chunk) (a m b : ℕ) → Tiled a xs m → Tiled m ys b → Tiled a (xs ++ ys) b
Tiled-append [] ys a m b l r = subst (λ k. Tiled k ys b) (sym l) r
Tiled-append (x ∷ xs) ys a m b l r =
    (l.0, l.1, Tiled-append xs ys (a + header_size + x.size) m b l.2 r)

pub blocks-append : (xs ys : List Chunk) → blocks (xs ++ ys) ≡ blocks xs ++ blocks ys
blocks-append [] ys = refl
blocks-append (x ∷ xs) ys = ground (arith, blocks-append xs ys)

pub kheap_chunk_is_free_lem :
    (c : Chunk) → IsFree c ⊎ IsAllocated c → kheap_chunk_is_free c ≡ some (c.magic == magic_free)
unfolding kheap_chunk_is_free
kheap_chunk_is_free_lem c v = ground arith

-- What `first_fit` returns on a list of valid chunks.
abbrev pub Found : ℕ → List Chunk → Search → Type 0
Found size cs Search.panicked = ⊥
Found size cs Search.exhausted = AllSmall size cs
Found size cs (Search.hit before p after) =
    (cs ≡ before ++ (p ∷ after)) × IsFree p × (size ≤ p.size) × AllSmall size before

Found-past :
    (size : ℕ) (c : Chunk) (cs : List Chunk) (s : Search)
    → (IsFree c → c.size < size)
    → Found size cs s
    → Found size (c ∷ cs) (past c s)
unfolding past
Found-past size c cs Search.panicked small f = f
Found-past size c cs Search.exhausted small f = (small, f)
Found-past size c cs (Search.hit before p after) small f =
    (ap (λ xs. c ∷ xs) f.0, f.1, f.2, (small, f.3))

first_fit-cons :
    (size : ℕ) (c : Chunk) (cs : List Chunk)
    → IsFree c ⊎ IsAllocated c
    → first_fit size (c ∷ cs) ≡ (
        if (c.magic == magic_free) && leb size c.size
        then Search.hit [] c cs
        else past c (first_fit size cs))
unfolding first_fit
first_fit-cons size c cs v = rw (kheap_chunk_is_free_lem c v, first_fit) refl

pub first_fit-Found :
    (size : ℕ) (cs : List Chunk) (a b : ℕ) → Tiled a cs b → Found size cs (first_fit size cs)
unfolding first_fit
first_fit-Found size [] a b t = tt
first_fit-Found size (c ∷ cs) a b t =
    elim (Bool-cases ((c.magic == magic_free) && leb size c.size)) [
      | inl e ↦ rw (first_fit-cons size c cs t.1, e) (refl, ground arith, ground arith, tt)
      | inr e ↦
          rw (first_fit-cons size c cs t.1, e)
            (Found-past size c cs (first_fit size cs) (λ f. ground arith)
              (first_fit-Found size cs (a + header_size + c.size) b t.2))
    ]
