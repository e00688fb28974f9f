-- ===== src/PortHash/Remove.antt =====
-- `port_hash_remove` of kernel/k_port.c, and `port_hash_insert` of a name that is taken.
use yomotsu.Base.{
  ℕ, ◌<◌, ◌%◌, ◌≡◌, inl, inr, refl, false, arith, ◌∙◌, sym, ap, Bool-cases, Option-cases, Option,
  none, some, List, [], ◌∷◌, ◌==◌, if◌then◌else◌, update,
}
use yomotsu.KString.{Memory, kstrequ}
use yomotsu.KString.Strings.{kstrequ_iff}
use yomotsu.KString.Texts.{hash-SameText, kstrequ-equal, kstrequ-sym}
use yomotsu.PortHash.{
  Entry, PortHash, name_max, index_of, find, Located, drop_first, remove_located, Fetched,
  port_hash_fetch, port_hash_remove,
}
use yomotsu.PortHash.Lookup.{
  other_index, Apart, IsTable, find-equal, do_locate-find, port_of, port_inj, port_hash_fetch-find,
}

module _ (name : ℕ) (m : Memory) where
  -- What is left of a slot once the name is dropped.
  find-drop_first :
      (k : ℕ) (es : List Entry)
      → Apart m es
      → find k (drop_first name es m) m ≡ (if kstrequ name_max k name m then none else find k es m)
  unfolding find drop_first
  find-drop_first k [] a = elim (Bool-cases (kstrequ name_max k name m)) [
    | inl e ↦ rw e refl
    | inr e ↦ rw e refl
  ]
  find-drop_first k (e ∷ es) a = elim (Bool-cases (kstrequ name_max name e.key m)) [
    | inl here ↦ elim (Bool-cases (kstrequ name_max k name m)) [
      | inl same ↦
          let gone = find-equal name e.key m es here in
          let gone' = find-equal k name m es same in rw (here, same) (gone' ∙ gone ∙ a.0)
      | inr other ↦
          let test : kstrequ name_max k e.key m ≡ false =
            kstrequ-sym name_max k e.key m
            ∙ sym (kstrequ-equal name_max name e.key k m here)
            ∙ kstrequ-sym name_max name k m
            ∙ other in
          rw (here, other, test) refl
    ]
    | inr there ↦ elim (Bool-cases (kstrequ name_max k name m)) [
      | inl same ↦
          let test = kstrequ-equal name_max k name e.key m same in
          rw (there, same, test, there) (find-drop_first k es a.1 ∙ rw same refl)
      | inr other ↦
          let rest : find k (drop_first name es m) m ≡ find k es m =
            find-drop_first k es a.1 ∙ rw other refl in
          rw (there, other, rest) refl
    ]
  ]

  Apart-drop_first : (es : List Entry) → Apart m es → Apart m (drop_first name es m)
  unfolding drop_first
  Apart-drop_first [] a = tt
  Apart-drop_first (e ∷ es) a = elim (Bool-cases (kstrequ name_max name e.key m)) [
    | inl here ↦ rw here a.1
    | inr there ↦ rw there (
      find-drop_first e.key es a.1 ∙ rw (kstrequ-sym name_max e.key name m ∙ there) a.0,
      Apart-drop_first es a.1,
    )
  ]

module _ (name : ℕ) (t : PortHash) (v : IsTable t) where
  dropped : PortHash
  dropped = record t {
    slots = update t.slots (index_of name t) (drop_first name (t.slots (index_of name t)) t.bytes);
  }

  dropped-IsTable : IsTable dropped
  unfolding dropped
  dropped-IsTable = record {
    some_slots = v.some_slots;
    fits = v.fits;
    apart = λ i. elim (Bool-cases (i == index_of name t)) [
      | inl e ↦
          rw e
            (Apart-drop_first name t.bytes (t.slots (index_of name t)) (v.apart (index_of name t)))
      | inr e ↦ rw e (v.apart i)
    ];
  }

  find-dropped :
      (k : ℕ)
      → port_of (find k (dropped.slots (index_of k t)) t.bytes) ≡ (
          if kstrequ name_max k name t.bytes
          then 0
          else port_of (find k (t.slots (index_of k t)) t.bytes))
  unfolding dropped
  find-dropped k = elim (Bool-cases (index_of k t == index_of name t)) [
    | inr e ↦ rw (e, other_index k name t e) refl
    | inl e ↦
        let same : index_of k t ≡ index_of name t = ground arith in
        rw
          (
            e,
            find-drop_first name t.bytes k (t.slots (index_of name t)) (v.apart (index_of name t)),
            same,
          )
          (elim (Bool-cases (kstrequ name_max k name t.bytes)) [
            | inl hit ↦ rw hit refl
            | inr miss ↦ rw miss refl
          ])
  ]

module _ (name namelen : ℕ) (t : PortHash) (v : IsTable t) (short : namelen < name_max) where
  remove-found :
      (o : Option Entry)
      → find name (t.slots (index_of name t)) t.bytes ≡ o
      → port_hash_remove name namelen t ≡ remove_located name t (Located.entry o)
  unfolding port_hash_remove
  remove-found o e =
      ap (remove_located name t) (do_locate-find name namelen t v short ∙ ap Located.entry e)

  port_was :
      (o : Option Entry) (p : ℕ)
      → find name (t.slots (index_of name t)) t.bytes ≡ o
      → port_hash_fetch name namelen t ≡ Fetched.port p t
      → port_of o ≡ p
  port_was o p e was =
      ap port_of (sym e) ∙ port_inj (sym (port_hash_fetch-find name namelen t v short) ∙ was)

  -- If the name is missing, so is every other buffer with the same text.
  missing_too :
      (k klen p : ℕ)
      → klen < name_max
      → find name (t.slots (index_of name t)) t.bytes ≡ none
      → port_hash_fetch k klen t ≡ Fetched.port p t
      → p ≡ (if kstrequ name_max k name t.bytes then 0 else p)
  missing_too k klen p short' missing was = elim (Bool-cases (kstrequ name_max k name t.bytes)) [
    | inr other ↦ rw other refl
    | inl same ↦
        let before = port_inj (sym (port_hash_fetch-find k klen t v short') ∙ was) in
        let index : index_of k t ≡ index_of name t =
          ap (λ h. h % t.capacity)
            (hash-SameText name_max k name t.bytes t.bytes
              ((kstrequ_iff name_max k name t.bytes).0 same)) in
        let none_there =
          ap (λ i. find k (t.slots i) t.bytes) index
          ∙ find-equal k name t.bytes (t.slots (index_of name t)) same
          ∙ missing in
        rw same (sym before ∙ ap port_of none_there)
  ]

  find_now :
      (k : ℕ)
      → port_of (
          find k
            ((dropped name t v).slots (index_of k (dropped name t v)))
            (dropped name t v).bytes)
        ≡ port_of (find k ((dropped name t v).slots (index_of k t)) t.bytes)
  unfolding dropped
  find_now k = refl

  fetch-dropped :
      (k klen p : ℕ)
      → klen < name_max
      → port_hash_fetch k klen t ≡ Fetched.port p t
      → port_hash_fetch k klen (dropped name t v)
        ≡ Fetched.port (if kstrequ name_max k name t.bytes then 0 else p) (dropped name t v)
  fetch-dropped k klen p short' was =
      let before : port_of (find k (t.slots (index_of k t)) t.bytes) ≡ p =
        port_inj (sym (port_hash_fetch-find k klen t v short') ∙ was) in
      port_hash_fetch-find k klen (dropped name t v) (dropped-IsTable name t v) short'
      ∙ ap (λ x. Fetched.port x (dropped name t v))
          (find_now k
            ∙ find-dropped name t v k
            ∙ ap (λ x. if kstrequ name_max k name t.bytes then 0 else x) before)

-- `port_hash_remove` of a table returns the port that `port_hash_fetch` finds, 0 for none, and
-- afterwards that name is not found, and every other one as before.
pub port_hash_remove_lem :
    (name namelen : ℕ) (t : PortHash)
    → IsTable t
    → namelen < name_max
    → (t' : PortHash) × ((p : ℕ)
        → port_hash_fetch name namelen t ≡ Fetched.port p t
        → port_hash_remove name namelen t ≡ Fetched.port p t')
      × IsTable t'
      × ((k klen p : ℕ)
          → klen < name_max
          → port_hash_fetch k klen t ≡ Fetched.port p t
          → port_hash_fetch k klen t'
            ≡ Fetched.port (if kstrequ name_max k name t.bytes then 0 else p) t')
unfolding remove_located dropped
port_hash_remove_lem name namelen t v short =
    elim (Option-cases (find name (t.slots (index_of name t)) t.bytes)) [
      | inl missing ↦ (
        t,
        (λ p was.
            remove-found name namelen t v short none missing
            ∙ ap (λ x. Fetched.port x t) (port_was name namelen t v short none p missing was)),
        v,
        λ k klen p short' was.
            was
            ∙ ap (λ x. Fetched.port x t)
                (missing_too name namelen t v short k klen p short' missing was),
      )
      | inr (e, there) ↦ (
        dropped name t v,
        (λ p was.
            remove-found name namelen t v short (some e) there
            ∙ ap (λ x. Fetched.port x (dropped name t v))
                (port_was name namelen t v short (some e) p there was)),
        dropped-IsTable name t v,
        λ k klen p short' was. fetch-dropped name namelen t v short k klen p short' was,
      )
    ]
