-- ===== src/PortHash.antt =====
-- The hash table of ports, kernel/k_port.c. A port is a number, 0 for the null pointer. Names are
-- strings in the kernel's memory. Each operation holds `hash_lock` from its first to its last access
-- to the table. Memory comes from an allocator that is not modelled here: what it returned is an
-- argument, `none` for the null pointer.
mod Tests
pub mod Lookup
pub mod Insert
pub mod Remove
pub mod Rehash
use yomotsu.Base.{
  ℕ, zero, suc, ◌+◌, ◌*◌, ◌/◌, ◌%◌, Bool, true, false, Option, none, some, List, [], ◌∷◌, leb, ltb,
  ◌==◌, if◌then◌else◌, update,
}
use yomotsu.KString.{Memory, kstrlen, kstrequ, kmemcpy, kstr_hash}

abbrev pub name_max : ℕ
name_max = 128

abbrev pub init_cap : ℕ
init_cap = 32

abbrev pub load_factor : ℕ
load_factor = 75

-- `port_hash_entry_t`
pub record Entry : Type 0 where
  pub key : ℕ
  pub val : ℕ

-- `port_hash`, of which `allocated` elements are allocated, `hash_capacity` and `hash_size`, and the
-- kernel's memory that the keys stand in.
pub record PortHash : Type 0 where
  pub slots : ℕ → List Entry
  pub allocated : ℕ
  pub capacity : ℕ
  pub size : ℕ
  pub bytes : Memory

pub port_hash_init : Memory → PortHash
port_hash_init bytes = record {
  slots = λ i. [];
  allocated = init_cap;
  capacity = init_cap;
  size = 0;
  bytes = bytes;
}

-- `u32 idx`; a capacity is below 2 ^ 32.
abbrev pub index_of : ℕ → PortHash → ℕ
index_of key t = kstr_hash key (kstrlen name_max key t.bytes) t.bytes % t.capacity

-- `_port_hash_do_insert`; `none` is a write behind the array.
pub do_insert : Entry → PortHash → Option PortHash
do_insert e t =
    let idx = index_of e.key t in
    if ltb idx t.allocated
    then some (record t { slots = update t.slots idx (e ∷ t.slots idx) })
    else none

pub find : ℕ → List Entry → Memory → Option Entry
find key [] bytes = none
find key (e ∷ es) bytes =
    let rest = find key es bytes in if kstrequ name_max key e.key bytes then some e else rest

-- What `_port_hash_do_locate` comes to: a read behind the array, or the entry, if any.
pub data Located : Type 0 where
  outside : Located
  entry : Option Entry → Located

pub do_locate : ℕ → ℕ → PortHash → Located
unfolding find
do_locate key keylen t =
    let idx = index_of key t in
    if leb name_max keylen
    then Located.entry none
    else if ltb idx t.allocated
    then Located.entry (find key (t.slots idx) t.bytes)
    else Located.outside

-- `list_remove` of the first entry of a slot with the key.
pub drop_first : ℕ → List Entry → Memory → List Entry
drop_first key [] bytes = []
drop_first key (e ∷ es) bytes =
    let rest = drop_first key es bytes in if kstrequ name_max key e.key bytes then es else e ∷ rest

-- `_port_hash_rehash_slot` of slot `i`: each of its entries is the first one left when it is moved.
pub rehash_slot : ℕ → List Entry → PortHash → Option PortHash
unfolding do_insert
rehash_slot i [] t = some t
rehash_slot i (e ∷ es) t =
    elim (do_insert e
      (record t { slots = update t.slots i (drop_first e.key (t.slots i) t.bytes) })) [
        | none ↦ none
        | some t' ↦ rehash_slot i es t'
      ]

-- The loop over the old array, from slot `i` on.
pub rehash_from : ℕ → ℕ → PortHash → Option PortHash
unfolding rehash_slot
rehash_from zero i t = some t
rehash_from (suc n) i t =
    if ltb i t.allocated
    then elim (rehash_slot i (t.slots i) t) [ none ↦ none | some t' ↦ rehash_from n (i + 1) t' ]
    else none

-- `_port_hash_rehash` once the new array is allocated and cleared: `port_hash` stays as it is.
pub rehash : PortHash → Option PortHash
unfolding rehash_from
rehash t = rehash_from t.capacity 0 (record t { capacity = t.capacity * 3 / 2 })

-- `ERROR(NOMEM)` and `ERROR(PORT_NAME_OCCUPIED)`
pub data Error : Type 0 where
  nomem name_occupied : Error

-- What `port_hash_insert` comes to: an access behind the array, an error, or the entry is there.
pub data Inserted : Type 0 where
  outside : Inserted
  failed : Error → PortHash → Inserted
  inserted : PortHash → Inserted

insert_grown : Entry → Option PortHash → Inserted
unfolding do_insert
insert_grown e none = Inserted.outside
insert_grown e (some t) = elim (do_insert e (record t { size = t.size + 1 })) [
  | none ↦ Inserted.outside
  | some t' ↦ Inserted.inserted t'
]

grow : Option ℕ → Entry → PortHash → Inserted
unfolding insert_grown rehash
grow new e t =
    if leb load_factor (t.size * 100 / t.capacity)
    then elim new [ none ↦ Inserted.failed Error.nomem t | some a ↦ insert_grown e (rehash t) ]
    else insert_grown e (some t)

insert_located : Option ℕ → Entry → PortHash → Located → Inserted
unfolding grow
insert_located new e t Located.outside = Inserted.outside
insert_located new e t (Located.entry none) = grow new e t
insert_located new e t (Located.entry (some old)) = Inserted.failed Error.name_occupied t

-- The buffer of the key, with the terminator.
abbrev pub with_key : ℕ → ℕ → ℕ → Memory → Memory
with_key key name namelen bytes = update (kmemcpy key name namelen bytes) (key + namelen) 0

-- The arguments `entry`, `key` and `new` are what the three allocations return.
pub port_hash_insert : Option ℕ → Option ℕ → Option ℕ → ℕ → ℕ → ℕ → PortHash → Inserted
unfolding insert_located do_locate
port_hash_insert none key new name namelen val t = Inserted.failed Error.nomem t
port_hash_insert (some a) none new name namelen val t = Inserted.failed Error.nomem t
port_hash_insert (some a) (some key) new name namelen val t =
    let t' = record t { bytes = with_key key name namelen t.bytes } in
    insert_located new (record { key = key; val = val }) t' (do_locate name namelen t')

-- What a lookup comes to: a read behind the array, or the port.
pub data Fetched : Type 0 where
  outside : Fetched
  port : ℕ → PortHash → Fetched

remove_located : ℕ → PortHash → Located → Fetched
unfolding drop_first
remove_located name t Located.outside = Fetched.outside
remove_located name t (Located.entry none) = Fetched.port 0 t
remove_located name t (Located.entry (some e)) =
    let idx = index_of name t in
    Fetched.port e.val
      (record t { slots = update t.slots idx (drop_first name (t.slots idx) t.bytes) })

pub port_hash_remove : ℕ → ℕ → PortHash → Fetched
unfolding remove_located do_locate
port_hash_remove name namelen t = remove_located name t (do_locate name namelen t)

fetch_located : PortHash → Located → Fetched
fetch_located t Located.outside = Fetched.outside
fetch_located t (Located.entry none) = Fetched.port 0 t
fetch_located t (Located.entry (some e)) = Fetched.port e.val t

pub port_hash_fetch : ℕ → ℕ → PortHash → Fetched
unfolding fetch_located do_locate
port_hash_fetch name namelen t = fetch_located t (do_locate name namelen t)
