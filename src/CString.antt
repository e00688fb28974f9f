-- ===== src/CString.antt =====
-- Strings and blocks of memory of the C library, osrt/c/string.c, over a memory of bytes. A pointer
-- is an address; no address that is reached wraps around, and no size is above 2 ^ 63. `memcmp`,
-- which runs `repne movsb`, and what calls it is not modelled.
mod Tests
pub mod Copy
pub mod Move
pub mod Strings
pub mod Spans
pub mod Sets
use yomotsu.Base.{
  ℕ, zero, suc, ◌+◌, ◌-◌, ◌%◌, Bool, true, false, Option, none, some, leb, ltb, ◌==◌, if◌then◌else◌,
  update, u8_mod, u64_mod, add_u64, sub_u64, ◌&&◌, not,
}
use yomotsu.KString.{Memory}

-- `rep movsb`: byte by byte, upwards.
pub memcpy_rep_movsb : ℕ → ℕ → ℕ → Memory → Memory
memcpy_rep_movsb dst src zero m = m
memcpy_rep_movsb dst src (suc n) m = memcpy_rep_movsb (dst + 1) (src + 1) n (update m dst (m src))

-- `rep stosb`
pub memset_rep_stosb : ℕ → ℕ → ℕ → Memory → Memory
memset_rep_stosb dst c zero m = m
memset_rep_stosb dst c (suc n) m = memset_rep_stosb (dst + 1) c n (update m dst c)

-- `repne scasb`: the number of bytes scanned, the one that is found included.
pub memchr_repne_scasb : ℕ → ℕ → ℕ → Memory → ℕ
memchr_repne_scasb s c zero m = 0
memchr_repne_scasb s c (suc n) m =
    let rest = memchr_repne_scasb (s + 1) c n m in if m s == c then 1 else rest + 1

pub memcpy : ℕ → ℕ → ℕ → Memory → ℕ × Memory
unfolding memcpy_rep_movsb
memcpy s1 s2 n m = (s1, memcpy_rep_movsb s1 s2 n m)

pub memset : ℕ → ℕ → ℕ → Memory → ℕ × Memory
unfolding memset_rep_stosb
memset s c n m = (s, memset_rep_stosb s (c % u8_mod) n m)

-- `remaining < overlap ? remaining : overlap`
pub chunk_size : ℕ → ℕ → ℕ → ℕ
chunk_size n overlap moved = if ltb (n - moved) overlap then n - moved else overlap

-- The loop of `memmove` for an `s1` in front. The model's own result is `none`, if the fuel runs out.
pub move_up : ℕ → ℕ → ℕ → ℕ → ℕ → ℕ → Memory → Option Memory
unfolding memcpy_rep_movsb chunk_size
move_up zero s1 s2 n overlap moved m = none
move_up (suc fuel) s1 s2 n overlap moved m =
    let chunk = chunk_size n overlap moved in
    let rest =
      move_up fuel s1 s2 n overlap (moved + overlap)
        (memcpy_rep_movsb (s1 + moved) (s2 + moved) chunk m) in
    if ltb moved n then rest else some m

-- The loop of `memmove` for an `s2` in front, from the end of the blocks on.
pub move_down : ℕ → ℕ → ℕ → ℕ → ℕ → ℕ → Memory → Option Memory
unfolding memcpy_rep_movsb chunk_size
move_down zero s1 s2 n overlap moved m = none
move_down (suc fuel) s1 s2 n overlap moved m =
    let chunk = chunk_size n overlap moved in
    let rest =
      move_down fuel s1 s2 n overlap (moved + overlap)
        (memcpy_rep_movsb (s1 + n - moved - chunk) (s2 + n - moved - chunk) chunk m) in
    if ltb moved n then rest else some m

-- What `memmove` leaves in memory.
pub move_block : ℕ → ℕ → ℕ → Memory → Option Memory
unfolding memcpy_rep_movsb move_up move_down
move_block s1 s2 n m =
    if s1 == s2
    then some m
    else (if ltb s1 s2 && leb (s1 + n) s2
        then some (memcpy_rep_movsb s1 s2 n m)
        else (if ltb s2 s1 && leb (s2 + n) s1
            then some (memcpy_rep_movsb s1 s2 n m)
            else (if ltb s1 s2
                then move_up (n + 1) s1 s2 n (s1 + n - s2) 0 m
                else move_down (n + 1) s1 s2 n (s2 + n - s1) 0 m)))

pub memmove : ℕ → ℕ → ℕ → Memory → Option (ℕ × Memory)
memmove s1 s2 n m = elim (move_block s1 s2 n m) [ none ↦ none | some m' ↦ some (s1, m') ]

-- `__SIZE_MAX__`
abbrev pub size_max : ℕ
size_max = u64_mod - 1

pub strlen : ℕ → Memory → ℕ
unfolding memchr_repne_scasb
strlen s m = memchr_repne_scasb s 0 size_max m

pub strncpy : ℕ → ℕ → ℕ → Memory → ℕ × Memory
unfolding memchr_repne_scasb memcpy_rep_movsb memset_rep_stosb
strncpy s1 s2 n m =
    let s2_len = memchr_repne_scasb s2 0 n m in
    let fill_len = n - s2_len in
    let copied = memcpy_rep_movsb s1 s2 s2_len m in
    (s1, if fill_len == 0 then copied else memset_rep_stosb (s1 + s2_len) 0 fill_len copied)

pub strcpy : ℕ → ℕ → Memory → ℕ × Memory
strcpy s1 s2 m = strncpy s1 s2 (strlen s2 m) m

pub strncat : ℕ → ℕ → ℕ → Memory → ℕ × Memory
unfolding memchr_repne_scasb memcpy_rep_movsb
strncat s1 s2 n m =
    let s1_len = memchr_repne_scasb s1 0 size_max m in
    let s2_len = memchr_repne_scasb s2 0 n m in
    (s1, update (memcpy_rep_movsb (s1 + s1_len) s2 s2_len m) (s1 + s1_len + s2_len) 0)

pub strcat : ℕ → ℕ → Memory → ℕ × Memory
strcat s1 s2 m = strncat s1 s2 size_max m

-- `none` is the null pointer.
pub memchr : ℕ → ℕ → ℕ → Memory → Option ℕ
unfolding memchr_repne_scasb
memchr s c n m =
    let idx = memchr_repne_scasb s (c % u8_mod) n m in if idx == n then none else some (s + idx)

pub strchr : ℕ → ℕ → Memory → Option ℕ
strchr s c m = memchr s c (add_u64 (strlen s m) 1) m

-- The loop that fills `s2_map` from `s2_len` chars.
pub char_map : ℕ → ℕ → Memory → (ℕ → Bool) → ℕ → Bool
char_map zero s2 m map = map
char_map (suc n) s2 m map = char_map n (s2 + 1) m (update map (m s2) true)

-- The second loop of `strcspn` and `strspn`, which ends at a char that the map has, or has not; `n`
-- chars are left.
pub span : Bool → (ℕ → Bool) → ℕ → ℕ → Memory → ℕ → ℕ
span ends_at map zero s1 m ret = ret
span ends_at map (suc n) s1 m ret =
    let rest = span ends_at map n (s1 + 1) m (ret + 1) in
    if (if ends_at then map (m s1) else not (map (m s1))) then ret else rest

pub strcspn : ℕ → ℕ → Memory → ℕ
unfolding char_map span
strcspn s1 s2 m = span true (char_map (strlen s2 m) s2 m (λ c. false)) (strlen s1 m) s1 m 0

-- The second loop of `strpbrk` is that of `strcspn`, and returns the char at which it ends.
pub strpbrk : ℕ → ℕ → Memory → Option ℕ
unfolding char_map span
strpbrk s1 s2 m =
    let s1_len = strlen s1 m in
    let i = span true (char_map (strlen s2 m) s2 m (λ c. false)) s1_len s1 m 0 in
    if ltb i s1_len then some (s1 + i) else none

pub strspn : ℕ → ℕ → Memory → ℕ
unfolding char_map span
strspn s1 s2 m = span false (char_map (strlen s2 m) s2 m (λ c. false)) (strlen s1 m) s1 m 0
