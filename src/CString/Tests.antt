-- ===== src/CString/Tests.antt =====
-- The functions on strings of osrt/c/string.c at a concrete memory.
use yomotsu.Base.{ℕ, ◌+◌, ◌≡◌, inr, refl, arith, ◌==◌, if◌then◌else◌, none, some, Option, zero, suc}
use yomotsu.KString.{Memory}
use yomotsu.CString.{strpbrk, memmove, move_block, move_down, memcpy_rep_movsb, chunk_size, strncpy}
use yomotsu.CString.Copy.{Moved}
use yomotsu.CString.Move.{memmove_lem}
use yomotsu.CString.Strings.{FirstAt, Padded, strncpy_lem}
use yomotsu.CString.Sets.{Apart, strpbrk_lem}

-- The string "ab" at 100, and "b" at 200.
abbrev strings : Memory
strings x = if x == 100 then 97 else if x == 101 then 98 else if x == 200 then 98 else 0

ab : FirstAt 100 0 strings 2
ab = record { before = λ j lt. elim j [ zero ↦ ground arith | suc k ↦ ground arith ]; there = refl }

b : FirstAt 200 0 strings 1
b = record { before = λ j lt. ground arith; there = refl }

abbrev byte_at : ℕ → Option (ℕ × Memory) → ℕ
byte_at x none = 0
byte_at x (some r) = r.1 x

-- A block that overlaps its new place by more than half: the last byte should be that of 102.
memmove_smears : byte_at 103 (memmove 101 100 3 (λ x. x)) ≡ 101
unfolding memmove move_block move_down memcpy_rep_movsb chunk_size
memmove_smears = refl

memmove_lem_example :
    (m' : Memory) × (memmove 102 100 3 strings ≡ some (102, m')) × Moved 102 100 0 3 strings m'
memmove_lem_example = memmove_lem 102 100 3 strings (inr (omega arith))

strncpy_lem_example :
    ((strncpy 300 100 5 strings).0 ≡ 300) × Padded 300 100 5 2 strings (strncpy 300 100 5 strings).1
strncpy_lem_example = strncpy_lem 300 100 5 2 strings ab (inr (omega arith))

strpbrk_lem_example :
    (r : ℕ) × (strpbrk 100 200 strings ≡ some (100 + r)) × Apart 100 200 2 1 strings r
strpbrk_lem_example = strpbrk_lem 100 200 2 1 strings ab b (omega arith) (omega arith)
