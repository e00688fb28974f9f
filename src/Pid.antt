-- ===== src/Pid.antt =====
-- Process identifiers, the bitmap of kernel/k_proc.c. A word of the bitmap is the function of its
-- 64 bits. The build does not define `_KDEBUG`, so an ASSERT does nothing.
mod Tests
pub mod Bitmap
use yomotsu.Base.{
  ℕ, zero, suc, ◌+◌, ◌-◌, ◌*◌, ◌/◌, ◌%◌, Bool, true, false, Option, none, some, ◌==◌, if◌then◌else◌,
  update, u64_mod, add_u64,
}

-- `PID_BITMAP_SIZE`, in words.
abbrev pub bitmap_size : ℕ
bitmap_size = 32768 / 64

-- `pid_bitmap`, under `pid_bitmap_lock`.
abbrev pub PidBitmap : Type 0
PidBitmap = ℕ → ℕ → Bool

-- `kmemset(pid_bitmap, 0, sizeof(pid_bitmap))` of `process_init`.
pub empty_bitmap : PidBitmap
empty_bitmap idx off = false

pub pid_bitmap_set : ℕ → PidBitmap → PidBitmap
pid_bitmap_set pos b = update b (pos / 8) (update (b (pos / 8)) (pos % 8) true)

pub pid_bitmap_clear : ℕ → PidBitmap → PidBitmap
pid_bitmap_clear pos b = update b (pos / 8) (update (b (pos / 8)) (pos % 8) false)

-- The inner loop of `alloc_pid`, with `n` rounds left: the first bit that is clear. The test
-- `pid_bitmap[idx] == ~(0ull)` in front of it is that there is none.
pub clear_bit : ℕ → ℕ → (ℕ → Bool) → Option ℕ
clear_bit zero off word = none
clear_bit (suc n) off word =
    let rest = clear_bit n (off + 1) word in if word off then rest else some off

-- The outer loop: the index and the bit.
pub clear_word : ℕ → ℕ → PidBitmap → Option (ℕ × ℕ)
clear_word zero idx b = none
clear_word (suc n) idx b =
    let rest = clear_word n (idx + 1) b in
    elim (clear_bit 64 0 (b idx)) [ none ↦ rest | some off ↦ some (idx, off) ]

take_pid : PidBitmap → Option (ℕ × ℕ) → ℕ × PidBitmap
take_pid b none = (u64_mod - 1, b)
take_pid b (some (idx, off)) = let ret = idx * 8 + off in (ret + 1, pid_bitmap_set ret b)

-- `return -1` is the last of the words that a `pid_t` holds.
pub alloc_pid : PidBitmap → ℕ × PidBitmap
unfolding take_pid
alloc_pid b = take_pid b (clear_word bitmap_size 0 b)

pub free_pid : ℕ → PidBitmap → PidBitmap
free_pid pid b = pid_bitmap_clear pid b
