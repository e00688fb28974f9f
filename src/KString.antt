-- ===== src/KString.antt =====
-- Strings and blocks of memory, kernel/k_string.c, over a memory of bytes. A pointer is an address,
-- and no address that is reached wraps around.
mod Tests
pub mod Strings
pub mod Blocks
pub mod Texts
use yomotsu.Base.{
  ℕ, zero, suc, ◌+◌, ◌-◌, ◌*◌, ◌%◌, ◌^◌, Bool, true, false, ◌&&◌, leb, ltb, ◌==◌, if◌then◌else◌,
  update, u64_mod,
}

abbrev pub Memory : Type 0
Memory = ℕ → ℕ

-- The loop of `kstrlen`, with `n` chars left to scan.
unfoldable pub scan : ℕ → Memory → ℕ → ℕ → ℕ
scan zero m str ret = ret
scan (suc n) m str ret =
    let rest = scan n m str (ret + 1) in if m (str + ret) == 0 then ret else rest

unfoldable pub kstrlen : ℕ → ℕ → Memory → ℕ
unfolding scan
kstrlen max_scan str m = scan max_scan m str 0

-- The loop of `kstrequ`, from `i` on with `n` rounds left.
unfoldable pub same_chars : ℕ → Memory → ℕ → ℕ → ℕ → Bool
same_chars zero m a b i = true
same_chars (suc n) m a b i =
    let rest = same_chars n m a b (i + 1) in if m (a + i) == m (b + i) then rest else false

unfoldable pub kstrequ : ℕ → ℕ → ℕ → Memory → Bool
unfolding same_chars
kstrequ max_scan a b m =
    let sa = kstrlen max_scan a m in
    let sb = kstrlen max_scan b m in if sa == sb then same_chars sa m a b 0 else false

-- `rep movsb`: byte by byte, upwards.
pub do_memcpy : ℕ → ℕ → ℕ → Memory → Memory
do_memcpy dst src zero m = m
do_memcpy dst src (suc n) m = do_memcpy (dst + 1) (src + 1) n (update m dst (m src))

-- The assertions on overlap do nothing in this build.
pub kmemcpy : ℕ → ℕ → ℕ → Memory → Memory
unfolding do_memcpy
kmemcpy dst src size m = do_memcpy dst src size m

pub kstrcpy : ℕ → ℕ → ℕ → Memory → ℕ × Memory
kstrcpy max_copy dst src m =
    let src_len = kstrlen max_copy src m in
    if src_len == max_copy
    then (u64_mod - 1, m)
    else (src_len, update (kmemcpy dst src src_len m) (dst + src_len + 1) 0)

-- A `char` is signed, and is extended to the width of `ret`.
unfoldable pub char_value : ℕ → ℕ
char_value c = if ltb c 128 then c else c + (u64_mod - 256)

unfoldable pub hash_loop : ℕ → ℕ → Memory → ℕ → ℕ
unfolding char_value
hash_loop zero str m ret = ret
hash_loop (suc n) str m ret =
    hash_loop n (str + 1) m (((ret * 2 ^ 5) % u64_mod + ret + char_value (m str)) % u64_mod)

unfoldable pub kstr_hash : ℕ → ℕ → Memory → ℕ
unfolding hash_loop
kstr_hash str strlen m = hash_loop strlen str m 0

-- The branch for a `dst` in the source block or at its end: the part of the source from `dst` on
-- is moved out of the way first.
pub kmemmov : ℕ → ℕ → ℕ → Memory → Memory
unfolding do_memcpy
kmemmov dst src size m =
    if leb src dst && leb dst (src + size)
    then do_memcpy dst src (dst - src) (do_memcpy (dst + (dst - src)) dst (src + size - dst) m)
    else do_memcpy dst src size m

-- `rep stosb`
pub kmemset : ℕ → ℕ → ℕ → Memory → Memory
kmemset dst c zero m = m
kmemset dst c (suc n) m = kmemset (dst + 1) c n (update m dst c)
