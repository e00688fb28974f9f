-- ===== src/Kobject.antt =====
-- The object table of a process, kernel/k_kobj.c. The lock of the process is held by the caller; a
-- mutex is whether it is held, by the caller, since nobody else runs; a call that waits for one is
-- `blocked`.
mod Tests
pub mod Handles
pub mod Fetch
use yomotsu.Base.{
  ℕ, zero, suc, ◌+◌, ◌-◌, ◌*◌, ◌/◌, Bool, true, false, ◌&&◌, Option, none, some, leb, ltb, ◌==◌,
  if◌then◌else◌, update, add_u64,
}

-- `enum KOBJ_TYPE`
pub data KobjType : Type 0 where
  unalloced prealloced port_server_ref port_client_ref port_request address_space port_ifce :
      KobjType

pub record Kobject : Type 0 where
  pub type : KobjType
  pub locked : Bool
  pub ptr : ℕ

-- `kobjects` and `kobject_size` of a process.
pub record Kobjects : Type 0 where
  pub kobjects : ℕ → Kobject
  pub size : ℕ

abbrev pub kobj_init_size : ℕ
kobj_init_size = 64

abbrev pub zeroed : Kobject
zeroed = record { type = KobjType.unalloced; locked = false; ptr = 0 }

pub is_unalloced : KobjType → Bool
is_unalloced KobjType.unalloced = true
is_unalloced _ = false

-- With memory for the table; `mutex_init` leaves a mutex that nobody holds.
pub kobject_init : Kobjects
kobject_init = record { kobjects = λ i. zeroed; size = kobj_init_size }

-- Whether the loop of `expand_kobjects` gets every lock.
pub all_unlocked : (ℕ → Kobject) → ℕ → Bool
all_unlocked objects zero = true
all_unlocked objects (suc n) =
    let rest = all_unlocked objects n in if (objects n).locked then false else rest

-- What a call leaves: it waits, it fails, or it has changed the table.
pub data Expanded : Type 0 where
  blocked no_memory : Expanded
  grown : Kobjects → Expanded

pub expand_kobjects : Bool → Kobjects → Expanded
unfolding all_unlocked
expand_kobjects room t =
    if room
    then (if all_unlocked t.kobjects t.size
        then Expanded.grown (record {
          kobjects = λ i. if ltb i t.size then record (t.kobjects i) { locked = false } else zeroed;
          size = t.size * 3 / 2;
        })
        else Expanded.blocked)
    else Expanded.no_memory

-- The first `KOBJ_UNALLOCED` among the `n` objects from `i` on.
pub find_unalloced : ℕ → ℕ → (ℕ → Kobject) → Option ℕ
unfolding is_unalloced
find_unalloced zero i objects = none
find_unalloced (suc n) i objects =
    let rest = find_unalloced n (i + 1) objects in
    if is_unalloced (objects i).type then some i else rest

-- What `kobject_alloc_lock` and `kobject_lock_fetch` return: the index of the object, and the
-- table.
pub data Fetched : Type 0 where
  blocked null : Fetched
  object : ℕ → Kobjects → Fetched

prealloc : ℕ → Bool → Kobjects → Kobjects
prealloc i locked t = record t {
  kobjects =
      update t.kobjects i (record (t.kobjects i) { type = KobjType.prealloced; locked = locked });
}

-- The object behind the old ones, which the code does not lock.
take_new : ℕ → Expanded → Fetched
unfolding prealloc
take_new i Expanded.blocked = Fetched.blocked
take_new i Expanded.no_memory = Fetched.null
take_new i (Expanded.grown t) = Fetched.object i (prealloc i (t.kobjects i).locked t)

take_found : Bool → Kobjects → Option ℕ → Fetched
unfolding prealloc take_new expand_kobjects
take_found room t none = take_new t.size (expand_kobjects room t)
take_found room t (some i) =
    if (t.kobjects i).locked then Fetched.blocked else Fetched.object i (prealloc i true t)

-- The handler is the index and 1.
pub kobject_alloc_lock : Bool → Kobjects → Fetched
unfolding find_unalloced take_found
kobject_alloc_lock room t = take_found room t (find_unalloced t.size 0 t.kobjects)

pub kobject_lock_fetch : ℕ → Kobjects → Fetched
unfolding is_unalloced
kobject_lock_fetch handler t =
    if handler == 0
    then Fetched.null
    else if ltb t.size handler
    then Fetched.null
    else if is_unalloced (t.kobjects (handler - 1)).type
    then Fetched.null
    else if (t.kobjects (handler - 1)).locked
    then Fetched.blocked
    else Fetched.object (handler - 1) (record t {
      kobjects =
          update t.kobjects (handler - 1) (record (t.kobjects (handler - 1)) { locked = true });
    })

-- "Assume holding object lock": `none` is the PANIC of `mutex_release` if nobody holds it.
pub kobject_free_release : ℕ → Kobjects → Option Kobjects
kobject_free_release i t =
    if (t.kobjects i).locked
    then some (record t { kobjects = update t.kobjects i zeroed })
    else none
