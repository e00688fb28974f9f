-- ===== src/PortHash/Tests.antt =====
-- The hash table of ports of kernel/k_port.c at concrete states.
use yomotsu.Base.{
  ℕ, ◌+◌, ◌<◌, ◌≡◌, inl, inr, refl, arith, none, some, [], ◌∷◌, ◌==◌, if◌then◌else◌, Bool-cases,
}
use yomotsu.KString.{Memory, scan, kstrlen, kstrequ, hash_loop, kstr_hash, char_value}
use yomotsu.PortHash.{
  PortHash, name_max, index_of, port_hash_init, find, with_key, Error, Inserted, port_hash_insert,
  Fetched, port_hash_fetch, port_hash_remove,
}
use yomotsu.PortHash.Lookup.{IsTable}
use yomotsu.PortHash.Insert.{CanInsert, Clear, port_hash_insert_lem}
use yomotsu.PortHash.Remove.{port_hash_remove_lem}
use yomotsu.PortHash.Rehash.{port_hash_insert-outside}

-- The names "fs" at 1000 and "P" at 1100.
abbrev names : Memory
names a = if a == 1000 then 102 else if a == 1001 then 115 else if a == 1100 then 80 else 0

abbrev fresh : PortHash
fresh = port_hash_init names

fresh-IsTable : IsTable fresh
unfolding port_hash_init
fresh-IsTable = record { some_slots = omega arith; fits = omega arith; apart = λ i. tt }

fs-length : kstrlen name_max 1000 names ≡ 2
unfolding kstrlen scan
fs-length = refl

fs-CanInsert : CanInsert 5000 1000 2 fresh
unfolding port_hash_init find
fs-CanInsert = record {
  length_is = fs-length;
  short = omega arith;
  clear = inl (omega (arith, fs-length));
  all_clear = λ i. tt;
  missing = refl;
}

port_hash_insert_lem_example :
    (t' : PortHash) × (port_hash_insert (some 4000) (some 5000) none 1000 2 7 fresh
      ≡ Inserted.inserted t')
    × IsTable t'
    × (t'.size ≡ fresh.size + 1)
    × ((k klen p : ℕ)
        → klen < name_max
        → Clear 5000 2 k fresh.bytes
        → port_hash_fetch k klen fresh ≡ Fetched.port p fresh
        → port_hash_fetch k klen t'
          ≡ Fetched.port (if kstrequ name_max k 1000 fresh.bytes then 7 else p) t')
unfolding port_hash_init
port_hash_insert_lem_example =
    port_hash_insert_lem 5000 1000 2 7 4000 none fresh fresh-IsTable fs-CanInsert (omega arith)

-- A table in which port 7 stands under the name "fs".
abbrev one_port : PortHash
one_port = record fresh {
  slots = λ i. if i == index_of 1000 fresh then record { key = 1000; val = 7 } ∷ [] else [];
  size = 1;
}

one_port-IsTable : IsTable one_port
unfolding port_hash_init find kstr_hash hash_loop kstrlen scan char_value
one_port-IsTable = record {
  some_slots = omega arith;
  fits = omega arith;
  apart = λ i. elim (Bool-cases (i == index_of 1000 fresh)) [
    | inl e ↦ rw e (refl, tt)
    | inr e ↦ rw e tt
  ];
}

port_hash_remove_lem_example :
    (t' : PortHash) × ((p : ℕ)
      → port_hash_fetch 1000 2 one_port ≡ Fetched.port p one_port
      → port_hash_remove 1000 2 one_port ≡ Fetched.port p t')
    × IsTable t'
    × ((k klen p : ℕ)
        → klen < name_max
        → port_hash_fetch k klen one_port ≡ Fetched.port p one_port
        → port_hash_fetch k klen t'
          ≡ Fetched.port (if kstrequ name_max k 1000 one_port.bytes then 0 else p) t')
port_hash_remove_lem_example = port_hash_remove_lem 1000 2 one_port one_port-IsTable (omega arith)

-- After 24 insertions, whatever was removed since.
abbrev worn : PortHash
worn = record fresh { size = 24 }

worn-IsTable : IsTable worn
unfolding port_hash_init
worn-IsTable = record { some_slots = omega arith; fits = omega arith; apart = λ i. tt }

p-length : kstrlen name_max 1100 names ≡ 1
unfolding kstrlen scan
p-length = refl

p-CanInsert : CanInsert 5000 1100 1 worn
unfolding port_hash_init find
p-CanInsert = record {
  length_is = p-length;
  short = omega arith;
  clear = inl (omega (arith, p-length));
  all_clear = λ i. tt;
  missing = refl;
}

p-hash : kstr_hash 1100 1 names ≡ 80
unfolding kstr_hash hash_loop char_value
p-hash = refl

port_hash_insert-outside_example :
    (port_hash_insert (some 4000) (some 5000) (some 6000) 1100 1 7 worn ≡ Inserted.outside)
    × (port_hash_insert (some 4000) (some 5000) none 1100 1 7 worn
        ≡ Inserted.failed Error.nomem (record worn { bytes = with_key 5000 1100 1 worn.bytes }))
unfolding port_hash_init
port_hash_insert-outside_example =
    port_hash_insert-outside 5000 1100 1 7 4000 6000 worn worn-IsTable p-CanInsert (omega arith)
      (omega (arith, p-hash))
