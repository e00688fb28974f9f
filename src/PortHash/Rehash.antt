-- ===== src/PortHash/Rehash.antt =====
-- `_port_hash_rehash` of kernel/k_port.c: the new array is never put in the place of the old one.
use yomotsu.Base.{
  ℕ, zero, suc, ◌+◌, ◌*◌, ◌/◌, ◌≤◌, ◌%◌, ◌≡◌, inl, inr, refl, true, false, arith, ◌∙◌, ap, subst,
  Bool-cases, Option-cases, Option, none, some, List, [], ◌∷◌, leb, ltb, update,
}
use yomotsu.KString.{kstrlen, kstr_hash}
use yomotsu.PortHash.{
  Entry, PortHash, name_max, load_factor, index_of, do_insert, drop_first, rehash_slot, rehash_from,
  rehash, with_key, Error, Inserted, insert_grown, grow, insert_located, port_hash_insert,
}
use yomotsu.PortHash.Lookup.{IsTable}
use yomotsu.PortHash.Insert.{CanInsert, copied, located, hash-key}

-- The same array, for the same capacity, and the same keys.
abbrev SameArray : PortHash → PortHash → Type 0
SameArray t t' = (t'.allocated ≡ t.allocated) × (t'.capacity ≡ t.capacity) × (t'.bytes ≡ t.bytes)

SameArray-trans : (t u w : PortHash) → SameArray t u → SameArray u w → SameArray t w
SameArray-trans t u w a b = (b.0 ∙ a.0, b.1 ∙ a.1, b.2 ∙ a.2)

-- The array of a result, if there is one.
abbrev Kept : PortHash → Option PortHash → Type 0
Kept t none = Unit
Kept t (some t') = SameArray t t'

Kept-trans : (t u : PortHash) (o : Option PortHash) → SameArray t u → Kept u o → Kept t o
Kept-trans t u none a k = tt
Kept-trans t u (some w) a k = SameArray-trans t u w a k

do_insert-Kept : (e : Entry) (t : PortHash) → Kept t (do_insert e t)
unfolding do_insert
do_insert-Kept e t = elim (Bool-cases (ltb (index_of e.key t) t.allocated)) [
  | inl inside ↦ rw inside (refl, refl, refl)
  | inr beyond ↦ rw beyond tt
]

rehash_slot-Kept : (i : ℕ) (es : List Entry) (t : PortHash) → Kept t (rehash_slot i es t)
unfolding rehash_slot
rehash_slot-Kept i [] t = (refl, refl, refl)
rehash_slot-Kept i (e ∷ es) t =
    let left = record t { slots = update t.slots i (drop_first e.key (t.slots i) t.bytes) } in
    elim (Option-cases (do_insert e left)) [
      | inl bad ↦ rw (bad, Kept) tt
      | inr (t1, good) ↦
          let first = subst (Kept left) good (do_insert-Kept e left) in
          rw (good, Kept) (Kept-trans t t1 (rehash_slot i es t1) first (rehash_slot-Kept i es t1))
    ]

rehash_from-Kept : (n i : ℕ) (t : PortHash) → Kept t (rehash_from n i t)
unfolding rehash_from
rehash_from-Kept zero i t = (refl, refl, refl)
rehash_from-Kept (suc n) i t = elim (Bool-cases (ltb i t.allocated)) [
  | inr beyond ↦ rw beyond tt
  | inl inside ↦ elim (Option-cases (rehash_slot i (t.slots i) t)) [
    | inl bad ↦ rw (inside, bad) tt
    | inr (t1, good) ↦
        let first = subst (Kept t) good (rehash_slot-Kept i (t.slots i) t) in
        rw (inside, good)
          (Kept-trans t t1 (rehash_from n (i + 1) t1) first (rehash_from-Kept n (i + 1) t1))
  ]
]

-- The capacity that a rehash leads to.
abbrev pub grown : PortHash → ℕ
grown t = t.capacity * 3 / 2

insert_grown-outside :
    (e : Entry) (t : PortHash) (o : Option PortHash)
    → Kept (record t { capacity = grown t }) o
    → t.allocated ≤ kstr_hash e.key (kstrlen name_max e.key t.bytes) t.bytes % grown t
    → insert_grown e o ≡ Inserted.outside
unfolding insert_grown do_insert
insert_grown-outside e t none k far = refl
insert_grown-outside e t (some t') k far =
    let beyond : ltb (index_of e.key t') t'.allocated ≡ false =
      let index : index_of e.key t'
          ≡ kstr_hash e.key (kstrlen name_max e.key t.bytes) t.bytes % grown t =
        rw (k.2, k.1) refl in
      let same = k.0 in ground arith in
    rw (beyond, insert_grown) refl

-- At the load at which the table grows, a name whose hash leads beyond the array that is in use
-- takes `port_hash_insert` outside of it: the array that it allocates for the new capacity is never
-- used. Where there is no memory for that array, the insertion fails with the table as it was.
pub port_hash_insert-outside :
    (key name namelen val a new : ℕ) (t : PortHash)
    → IsTable t
    → CanInsert key name namelen t
    → load_factor ≤ t.size * 100 / t.capacity
    → t.allocated ≤ kstr_hash name namelen t.bytes % grown t
    → (port_hash_insert (some a) (some key) (some new) name namelen val t ≡ Inserted.outside)
      × (port_hash_insert (some a) (some key) none name namelen val t
          ≡ Inserted.failed Error.nomem (record t { bytes = with_key key name namelen t.bytes }))
unfolding port_hash_insert insert_located copied grow rehash
port_hash_insert-outside key name namelen val a new t v c heavy far =
    let e : Entry = record { key = key; val = val } in
    let full : leb load_factor (t.size * 100 / t.capacity) ≡ true = ground arith in
    let there = located key name namelen val t v c in
    (
      ap (insert_located (some new) e (copied key name namelen val t v c)) there
          ∙ rw full (
              insert_grown-outside e (copied key name namelen val t v c) _
                (rehash_from-Kept t.capacity 0 _) (rw (hash-key key name namelen val t v c) far)),
      ap (insert_located none e (copied key name namelen val t v c)) there ∙ rw full refl,
    )
