-- ===== src/KernelHeap/Aligned.antt =====
-- `kmem_alloc_aligned` of kernel/k_memory.c.
use yomotsu.Base.{
  zero, suc, ◌^◌, ◌≢◌, sym, ap, subst, pow-suc, ℕ, ◌+◌, ◌*◌, ◌/◌, ◌%◌, ◌≤◌, ◌<◌, ◌≡◌, ◌⊎◌, inl, inr,
  refl, ◌∙◌, false, Option, some, arith, ltb, ◌==◌, if◌then◌else◌, update, u64_mod, add_u64,
  sub_u64, Bool-cases,
}
use yomotsu.KernelHeap.{KernelHeap, Alloc, align_up, kmem_alloc, free_target}
use yomotsu.KernelHeap.On32.{AllOn32, RegionOn32, PointerOn32, kmem_alloc-PointerOn32}
use native.Mathlib.Nat.{
  one-le-pow, mul_assoc, add-zero, div-add-mod, mod-lt, mul-mod_right, add-mod_right,
}

abbrev pub aligned_header_size : ℕ
aligned_header_size = 16

-- What `kmem_alloc_aligned` comes to: as `kmem_alloc`, or the header that it writes lies on the
-- header of the chunk. That is what the second ASSERT rules out, which does nothing in this build.
pub data AlignedAlloc : Type 0 where
  returned : Alloc → AlignedAlloc
  overwritten : AlignedAlloc

-- The end of `kmem_alloc_aligned`: the header with the pointer to free is written below the
-- aligned address.
pub align_block : ℕ → Alloc → AlignedAlloc
align_block align Alloc.panicked = AlignedAlloc.returned Alloc.panicked
align_block align Alloc.oom = AlignedAlloc.returned Alloc.oom
align_block align (Alloc.got ptr h) =
    let ret = align_up ptr align in
    if ret == ptr
    then AlignedAlloc.returned (Alloc.got ret h)
    else if ltb (sub_u64 ret ptr) aligned_header_size
    then AlignedAlloc.overwritten
    else AlignedAlloc.returned
        (Alloc.got ret (record h { aligned = update h.aligned ret (some ptr) }))

pub kmem_alloc_aligned : ℕ → ℕ → Option ℕ → KernelHeap → AlignedAlloc
unfolding align_block
kmem_alloc_aligned size align region h =
    if ltb align 32
    then AlignedAlloc.returned (kmem_alloc size region h)
    else align_block align (kmem_alloc (add_u64 size align) region h)

-- The least multiple of `r` from `x` on.
align_up_lem :
    (x r : ℕ)
    → 1 ≤ x
    → 1 ≤ r
    → x + r < u64_mod
    → (align_up x r % r ≡ 0) × (x ≤ align_up x r) × (align_up x r < x + r)
align_up_lem x r pos some_r room =
    let q = sub_u64 x 1 / r in
    let parts = div-add-mod (sub_u64 x 1) r in
    let rest = mod-lt (sub_u64 x 1) {m = r} some_r in
    let whole : align_up x r ≡ r * q + r = omega (arith, parts, rest) in
    (
      rw whole (add-mod_right (r * q) r ∙ mul-mod_right r q),
      rw whole (omega (arith, parts, rest)),
      rw whole (omega (arith, parts, rest)),
    )

free_target-update :
    (h : KernelHeap) (k p : ℕ)
    → free_target (record h { aligned = update h.aligned k (some p) }) k ≡ p
unfolding free_target
free_target-update h k p = ground arith

pow_32 : (k : ℕ) → 2 ^ (k + 5) ≡ 32 * 2 ^ k
pow_32 zero = refl
pow_32 (suc k) =
    let place : suc k + 5 ≡ suc (k + 5) = omega arith in
    ap (λ n. 2 ^ n) place ∙ omega (arith, pow-suc 2 (k + 5), pow_32 k, pow-suc 2 k)

-- A multiple of a power of two from 32 on is one of 32.
on_32 : (k x : ℕ) → x % 2 ^ (k + 5) ≡ 0 → x % 32 ≡ 0
on_32 k x e =
    let q = x / 2 ^ (k + 5) in
    let parts = div-add-mod x (2 ^ (k + 5)) in
    let product = mul_assoc 32 (2 ^ k) q in
    let whole : x ≡ 32 * (2 ^ k * q) =
      sym parts
      ∙ ap (λ r. 2 ^ (k + 5) * q + r) e
      ∙ add-zero (2 ^ (k + 5) * q)
      ∙ ap (λ a. a * q) (pow_32 k)
      ∙ product in
    omega (arith, whole)

further : (p q : ℕ) → p % 32 ≡ 0 → q % 32 ≡ 0 → p ≤ q → q ≢ p → p + 32 ≤ q
further p q a b le ne = omega arith

-- When the chunks of the heap start at multiples of 32 and have sizes that are such, the region that
-- the heap may get starts at one too, and `kmem_alloc` of the size and the alignment together, a power
-- of two from 32 on, returns a block at `ptr`, then `kmem_alloc_aligned` returns the first aligned
-- address in it, with room for the size behind it, and has changed nothing else of the heap's chunks:
-- the header that it writes lies in the block. The address is `ptr` itself, or freeing it frees `ptr`.
pub aligned_lem :
    (size align k ptr : ℕ) (region : Option ℕ) (h h' : KernelHeap)
    → align ≡ 2 ^ (k + 5)
    → AllOn32 h.chunks
    → RegionOn32 region
    → 1 ≤ ptr
    → ptr + size + align < u64_mod
    → kmem_alloc (size + align) region h ≡ Alloc.got ptr h'
    → (ret : ℕ) × (h'' : KernelHeap) × (kmem_alloc_aligned size align region h
        ≡ AlignedAlloc.returned (Alloc.got ret h''))
      × (ret % align ≡ 0)
      × (ptr ≤ ret)
      × (ret + size < ptr + (size + align))
      × (h''.chunks ≡ h'.chunks)
      × ((ret ≡ ptr) ⊎ ((ptr + aligned_header_size ≤ ret) × (free_target h'' ret ≡ ptr)))
unfolding kmem_alloc_aligned align_block free_target
aligned_lem size align k ptr region h h' power on region_on pos room e =
    let start : ptr % 32 ≡ 0 =
      (subst PointerOn32 e (kmem_alloc-PointerOn32 (size + align) region h on region_on)).0 in
    let some_align = one-le-pow k 2 (omega arith) in
    let big : 32 ≤ align = omega (arith, power, pow_32 k, some_align) in
    let (whole, above, below) = align_up_lem ptr align pos (omega arith) (omega arith) in
    let ret_32 : align_up ptr align % 32 ≡ 0 =
      on_32 k (align_up ptr align) (ap (λ r. align_up ptr align % r) (sym power) ∙ whole) in
    let wide : ltb align 32 ≡ false = ground arith in
    let sum : add_u64 size align ≡ size + align = omega arith in
    elim (Bool-cases (align_up ptr align == ptr)) [
      | inl same ↦ (
        align_up ptr align,
        h',
        rw (wide, sum, e, same, align_block) refl,
        whole,
        above,
        omega arith,
        refl,
        inl (ground arith),
      )
      | inr other ↦
          let apart : ptr + 32 ≤ align_up ptr align =
            further ptr (align_up ptr align) start ret_32 above (ground arith) in
          let clear : ltb (sub_u64 (align_up ptr align) ptr) aligned_header_size ≡ false =
            ground arith in
          (
            align_up ptr align,
            record h' { aligned = update h'.aligned (align_up ptr align) (some ptr) },
            rw (wide, sum, e, other, clear, align_block) refl,
            whole,
            above,
            omega arith,
            refl,
            inr (omega arith, free_target-update h' (align_up ptr align) ptr),
          )
    ]
