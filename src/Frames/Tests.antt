-- ===== src/Frames/Tests.antt =====
-- The frames of kernel/k_memory.c at concrete states.
use yomotsu.Base.{ℕ, ◌-◌, ◌*◌, ◌<◌, ◌≡◌, ◌⊎◌, refl, false, arith, ltb, if◌then◌else◌, update}
use yomotsu.Frames.{
  Frames, Alloc, page_size, map_elements, div_ceil, fill, alloc_contiguous, claim, pma_alloc,
  find_frame, claim_found, inc_u8,
}
use yomotsu.Frames.Single.{IsFull, FirstFree, pma_alloc_lem}
use yomotsu.Frames.Run.{IsFreeRun, alloc_contiguous_lem}

-- The first two frames are in use and all others free.
abbrev two_used : Frames
two_used = record {
  map = λ i. if ltb i 2 then 1 else 0;
  locked = false;
  upper_limit = 16 * page_size;
}

abbrev all_used : Frames
all_used = record { map = λ i. 0xff; locked = false; upper_limit = 0 }

pma_alloc_lem_example :
    ((k : ℕ) × FirstFree k two_used
      × (pma_alloc two_used
          ≡ Alloc.returned (k * page_size) (record two_used { map = update two_used.map k 1 })))
    ⊎ (IsFull two_used
        × (pma_alloc two_used
            ≡ (if two_used.locked then Alloc.blocked else Alloc.returned 0 two_used)))
pma_alloc_lem_example = pma_alloc_lem two_used

two_used-alloc :
    pma_alloc two_used
    ≡ Alloc.returned (2 * page_size) (record two_used { map = update two_used.map 2 1 })
unfolding pma_alloc find_frame claim_found claim inc_u8
two_used-alloc = refl

-- Two frames in a row.
alloc_contiguous_lem_example :
    ((i : ℕ) × (i < map_elements - div_ceil 4194304 page_size)
      × IsFreeRun (div_ceil 4194304 page_size) i two_used.map
      × (alloc_contiguous 4194304 two_used
          ≡ Alloc.returned
              (i * page_size)
              (record two_used { map = fill two_used.map i (div_ceil 4194304 page_size) 1 })))
    ⊎ (((j : ℕ)
          → j < map_elements - div_ceil 4194304 page_size
          → two_used.map j ≡ 0
          → ¬ (IsFreeRun (div_ceil 4194304 page_size) j two_used.map))
        × (alloc_contiguous 4194304 two_used ≡ Alloc.returned 0 two_used))
alloc_contiguous_lem_example = alloc_contiguous_lem 4194304 two_used (omega arith) refl
