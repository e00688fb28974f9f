-- ===== src/KString/Tests.antt =====
-- The strings of kernel/k_string.c at a concrete memory.
use yomotsu.Base.{◌+◌, ◌-◌, ◌%◌, ◌≡◌, refl, ◌==◌, if◌then◌else◌, u64_mod}
use yomotsu.KString.{Memory, scan, kstrlen, kstr_hash, hash_loop, char_value}
use yomotsu.KString.Strings.{djbx33a, above_signed, byte_value, kstr_hash_lem}

-- The string "ab" at 100 and at 200.
abbrev ab : Memory
ab x =
    if x == 100
    then 97
    else if x == 101
    then 98
    else if x == 200
    then 97
    else if x == 201
    then 98
    else 0

ab_length : kstrlen 16 100 ab ≡ 2
unfolding kstrlen scan
ab_length = refl

-- The bytes 195 and 169 at 100, which are negative chars.
abbrev accented : Memory
accented x = if x == 100 then 195 else if x == 101 then 169 else 0

kstr_hash_lem_example :
    (kstr_hash 100 2 accented + djbx33a above_signed 2 100 accented 0) % u64_mod
    ≡ djbx33a byte_value 2 100 accented 0 % u64_mod
kstr_hash_lem_example = kstr_hash_lem 100 2 accented

-- 33 * (2 ^ 64 - 61) + (2 ^ 64 - 87), less 2 ^ 64 as often as it goes.
accented_hash : kstr_hash 100 2 accented ≡ u64_mod - 2100
unfolding kstr_hash hash_loop char_value
accented_hash = refl
