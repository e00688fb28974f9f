-- ===== src/Frames.antt =====
-- Physical frames, the part "Physical Memory Allocation" of kernel/k_memory.c: one reference count
-- of a byte for each frame of 2 MB, 0 for a frame that is free.

mod Tests
pub mod Range
pub mod Single
pub mod Run
use yomotsu.Base.{
  ℕ, zero, suc, ◌+◌, ◌-◌, ◌*◌, ◌/◌, ◌%◌, Bool, true, false, ◌&&◌, Option, none, some, leb, ltb,
  ◌==◌, if◌then◌else◌, update, u8_mod, add_u64, sub_u64,
}

abbrev pub page_size : ℕ
page_size = 2048 * 1024

-- `PM_MAP_ELEMENTS`
abbrev pub map_elements : ℕ
map_elements = 4096 * 1024

-- `DIV_CEIL`
abbrev pub div_ceil : ℕ → ℕ → ℕ
div_ceil a b = add_u64 (sub_u64 a 1 / b) 1

-- `pm_map`, `pm_map_lock` and `pm_upper_limit`.
pub record Frames : Type 0 where
  pub map : ℕ → ℕ
  pub locked : Bool
  pub upper_limit : ℕ

-- `kmemset(&pm_map[base], v, n)`
pub fill : (ℕ → ℕ) → ℕ → ℕ → ℕ → ℕ → ℕ
fill m base n v i = if leb base i && ltb i (base + n) then v else m i

pub pma_init : Frames → Frames
unfolding fill
pma_init f = record f { map = fill f.map 0 map_elements 0xff; locked = false }

raise_limit : ℕ → ℕ → ℕ → ℕ
raise_limit base size limit = if ltb limit (add_u64 base size) then add_u64 base size else limit

-- `_pma_mark_usable`
pub mark_usable : ℕ → ℕ → Frames → Frames
unfolding fill raise_limit
mark_usable base size f = record f {
  upper_limit = raise_limit base size f.upper_limit;
  map = fill f.map (base / page_size) (size / page_size) 0;
}

-- `_pma_mark_reserved`
pub mark_reserved : ℕ → ℕ → Frames → Frames
unfolding fill raise_limit
mark_reserved base size f = record f {
  upper_limit = raise_limit base size f.upper_limit;
  map = fill f.map (base / page_size) (div_ceil size page_size) 0xff;
}

-- `atomic_inc_fetch_u8` and `atomic_dec_fetch_u8`
pub inc_u8 : ℕ → ℕ
inc_u8 v = (v + 1) % u8_mod

pub dec_u8 : ℕ → ℕ
dec_u8 v = (v + u8_mod - 1) % u8_mod

-- `for (i = base; i < base + n; ++i)`, the body of which changes one count.
pub for_frames : (ℕ → ℕ) → ℕ → ℕ → (ℕ → ℕ) → ℕ → ℕ
for_frames body zero i m = m
for_frames body (suc n) i m = for_frames body n (i + 1) (update m i (body (m i)))

pub inc_ref_count : ℕ → ℕ → Frames → Frames
unfolding for_frames inc_u8
inc_ref_count base size f = record f {
  map = for_frames inc_u8 (size / page_size) (base / page_size) f.map;
}

pub dec_ref_count : ℕ → ℕ → Frames → Frames
unfolding for_frames dec_u8
dec_ref_count base size f = record f {
  map = for_frames dec_u8 (size / page_size) (base / page_size) f.map;
}

pub pma_free : ℕ → ℕ → Frames → Frames
pma_free base size f = dec_ref_count base size f

-- The inner loop of `pma_alloc_contiguous`: whether `n` frames from `j` on are free.
pub run_is_free : ℕ → ℕ → (ℕ → ℕ) → Bool
run_is_free zero j m = true
run_is_free (suc n) j m = let rest = run_is_free n (j + 1) m in if m j == 0 then rest else false

-- Its outer loop, with `rounds` rounds left.
pub find_run : ℕ → ℕ → ℕ → (ℕ → ℕ) → Option ℕ
unfolding run_is_free
find_run zero i pages m = none
find_run (suc rounds) i pages m =
    let rest = find_run rounds (i + 1) pages m in
    if m i == 0 then (if run_is_free pages i m then some i else rest) else rest

-- What an allocation ends in: it waits for the lock for ever, or it returns an address, 0 for none.
pub data Alloc : Type 0 where
  blocked : Alloc
  returned : ℕ → Frames → Alloc

-- `mutex_acquire(&pm_map_lock)`: no one but the caller runs, so a lock that is held stays held.
pub with_lock : Frames → (Frames → Alloc) → Alloc
with_lock f body = if f.locked then Alloc.blocked else body (record f { locked = true })

take_run : ℕ → Frames → Option ℕ → Alloc
unfolding fill
take_run pages f none = Alloc.returned 0 (record f { locked = false })
take_run pages f (some i) =
    Alloc.returned (i * page_size) (record f { map = fill f.map i pages 1; locked = false })

pub alloc_contiguous : ℕ → Frames → Alloc
unfolding with_lock take_run
alloc_contiguous size f =
    let pages = div_ceil size page_size in
    if ltb map_elements pages
    then Alloc.returned 0 f
    else with_lock f (λ g. take_run pages g (find_run (map_elements - pages) 0 pages g.map))

-- `for (i = 0; i < PM_MAP_ELEMENTS; ++i)` up to the first frame that is free.
pub find_frame : ℕ → ℕ → (ℕ → ℕ) → Option ℕ
find_frame zero i m = none
find_frame (suc n) i m = let rest = find_frame n (i + 1) m in if m i == 0 then some i else rest

take_locked : Frames → Option ℕ → Alloc
take_locked f none = Alloc.returned 0 (record f { locked = false })
take_locked f (some i) =
    Alloc.returned (i * page_size) (record f { map = update f.map i (inc_u8 (f.map i)) })

-- `_pma_alloc_locked`
pub alloc_locked : Frames → Alloc
unfolding with_lock take_locked inc_u8
alloc_locked f = with_lock f (λ g. take_locked g (find_frame map_elements 0 g.map))

-- The part of `pma_alloc` behind the test `if (pm_map[i])`: other processors may have run since.
pub claim : ℕ → Frames → ℕ × Frames
unfolding inc_u8 dec_u8
claim i f =
    let m = update f.map i (inc_u8 (f.map i)) in
    (i * page_size, record f { map = if m i == 1 then m else update m i (dec_u8 (m i)) })

claim_found : Frames → Option ℕ → Alloc
unfolding claim
claim_found f none = alloc_locked f
claim_found f (some i) = let (addr, g) = claim i f in Alloc.returned addr g

-- `pma_alloc` with nobody else in it.
pub pma_alloc : Frames → Alloc
unfolding claim_found
pma_alloc f = claim_found f (find_frame map_elements 0 f.map)
