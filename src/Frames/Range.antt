-- ===== src/Frames/Range.antt =====
-- Which frames the operations on a range of kernel/k_memory.c touch.
use yomotsu.Base.{
  ◌==◌, ◌∙◌, ℕ, zero, suc, ◌+◌, ◌/◌, ◌%◌, ◌≤◌, ◌<◌, ◌≡◌, ◌&&◌, arith, leb, ltb, if◌then◌else◌,
  update, u64_mod,
}
use yomotsu.Frames.{
  Frames, page_size, fill, mark_reserved, for_frames, pma_free, dec_ref_count, dec_u8,
}

-- The loops change each count of the range once, and no other.
pub for_frames_lem :
    (body : ℕ → ℕ) (n i : ℕ) (m : ℕ → ℕ) (j : ℕ)
    → for_frames body n i m j ≡ (if leb i j && ltb j (i + n) then body (m j) else m j)
unfolding for_frames
for_frames_lem body zero i m j = ground arith
for_frames_lem body (suc n) i m j =
    ground (arith, for_frames_lem body n (i + 1) (update m i (body (m i))) j)

-- With a base on a page boundary and an end below 2 ^ 64, `_pma_mark_reserved` sets the count of
-- every frame that holds a byte of the region to 255.
pub reserved_covers :
    (base size : ℕ) (f : Frames) (x : ℕ)
    → base % page_size ≡ 0
    → base + size < u64_mod
    → base ≤ x
    → x < base + size
    → (mark_reserved base size f).map (x / page_size) ≡ 0xff
unfolding mark_reserved fill
reserved_covers base size f x al w lo hi = ground arith

-- Freeing one page takes one from the count of its frame and leaves the others.
pub pma_free-frame :
    (base i : ℕ) (f : Frames)
    → (pma_free base page_size f).map i
      ≡ (if i == base / page_size then dec_u8 (f.map i) else f.map i)
unfolding pma_free dec_ref_count
pma_free-frame base i f = for_frames_lem dec_u8 1 (base / page_size) f.map i ∙ ground arith
