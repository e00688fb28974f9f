-- ===== src/Pid/Tests.antt =====
-- The bitmap of kernel/k_proc.c at concrete states.
use yomotsu.Base.{◌≡◌, refl, arith, ltb, ◌&&◌, ◌==◌}
use yomotsu.Pid.{PidBitmap, empty_bitmap, alloc_pid, clear_word, clear_bit, take_pid}
use yomotsu.Pid.Bitmap.{IsStuck}

-- The bitmap after the first eight allocations.
abbrev eight_taken : PidBitmap
eight_taken idx off = (idx == 0) && ltb off 8

eight_taken-IsStuck : IsStuck eight_taken
eight_taken-IsStuck = ((λ j h. ground arith), refl)

first_pid : (alloc_pid empty_bitmap).0 ≡ 1
unfolding alloc_pid empty_bitmap clear_word clear_bit take_pid
first_pid = refl
