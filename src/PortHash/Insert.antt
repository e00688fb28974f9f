-- ===== src/PortHash/Insert.antt =====
-- `port_hash_insert` of kernel/k_port.c below the load at which the table grows.
use yomotsu.Base.{
  ℕ, ◌+◌, ◌*◌, ◌/◌, ◌≤◌, ◌<◌, ◌%◌, ◌≡◌, ◌⊎◌, inl, inr, refl, true, false, arith, ◌∙◌, sym, ap,
  subst, Bool-cases, Option, none, some, List, [], ◌∷◌, leb, ltb, ◌==◌, if◌then◌else◌, update,
  ℕ_discrete,
}
use yomotsu.KString.{Memory, kstrlen, kstrequ, kstr_hash}
use yomotsu.KString.Blocks.{kmemcpy_lem, kmemcpy-outside}
use yomotsu.KString.Strings.{IsLength, kstrlen-IsLength}
use yomotsu.KString.Texts.{
  SameText, IsLength-unique, unchanged-SameText, hash-SameText, kstrequ-SameText,
}
use yomotsu.PortHash.{
  Entry, PortHash, name_max, load_factor, index_of, do_insert, find, Located, do_locate, with_key,
  Inserted, insert_grown, grow, insert_located, port_hash_insert, Fetched, port_hash_fetch,
}
use yomotsu.PortHash.Lookup.{
  other_index, Apart, IsTable, Kept, find-SameText, Apart-Kept, index_of-fits, do_locate-find,
  port_of, port_inj, port_hash_fetch-find,
}

-- The string does not meet the buffer of `namelen + 1` bytes at `key`.
abbrev pub Clear : ℕ → ℕ → ℕ → Memory → Type 0
Clear key namelen str m = (str + kstrlen name_max str m < key) ⊎ (key + namelen < str)

abbrev pub AllClear : ℕ → ℕ → Memory → List Entry → Type 0
AllClear key namelen m [] = Unit
AllClear key namelen m (e ∷ es) = Clear key namelen e.key m × AllClear key namelen m es

module _ (key name namelen : ℕ) (m : Memory) where
  with_key-Clear :
      (str : ℕ)
      → Clear key namelen str m
      → SameText name_max m str (with_key key name namelen m) str
  with_key-Clear str clear =
      unchanged-SameText name_max str m (with_key key name namelen m) (λ j le lt.
        let apart : (str + j < key) ⊎ (key + namelen ≤ str + j) = ground arith in
        let ne : (str + j == key + namelen) ≡ false = ground arith in
        rw ne (sym (kmemcpy-outside key name namelen m (str + j) apart)))

  with_key-Kept :
      (es : List Entry) → AllClear key namelen m es → Kept m (with_key key name namelen m) es
  with_key-Kept [] clear = tt
  with_key-Kept (e ∷ es) clear = (with_key-Clear e.key clear.0, with_key-Kept es clear.1)

  with_key-char :
      (j : ℕ)
      → kstrlen name_max name m ≡ namelen
      → Clear key namelen name m
      → j < namelen
      → m (name + j) ≡ with_key key name namelen m (key + j)
  with_key-char j is clear lt =
      let far : (key ≤ name) ⊎ (name + namelen ≤ key) = ground arith in
      let ne : (key + j == key + namelen) ≡ false = ground arith in
      rw ne (sym (kmemcpy_lem key name namelen m j far lt))

  with_key-nul :
      kstrlen name_max name m ≡ namelen
      → namelen < name_max
      → m (name + namelen) ≡ with_key key name namelen m (key + namelen)
  with_key-nul is short =
      let len = subst (IsLength name_max name m) is (kstrlen-IsLength name_max name m) in
      elim len.stops [ inl e ↦ absurd (omega arith) | inr z ↦ z ∙ ground arith ]

  -- The new key has the text of the name.
  with_key-name :
      kstrlen name_max name m ≡ namelen
      → namelen < name_max
      → Clear key namelen name m
      → SameText name_max m name (with_key key name namelen m) key
  with_key-name is short clear =
      let chars = λ (j : ℕ) (lt : j < namelen). with_key-char j is clear lt in
      let up_to : (j : ℕ)
          → j ≤ namelen
          → j < name_max
          → m (name + j) ≡ with_key key name namelen m (key + j) =
        (λ j le lt. elim (ℕ_discrete j namelen) [
          | yes e ↦ rw e (with_key-nul is short)
          | no ne ↦ chars j (omega arith)
        ]) in
      let len = subst (IsLength name_max name m) is (kstrlen-IsLength name_max name m) in
      (
        is
            ∙ IsLength-unique name_max name key namelen _ m (with_key key name namelen m) len
                (kstrlen-IsLength name_max key (with_key key name namelen m)) up_to,
        λ j lt. chars j (omega (arith, is)),
      )

-- What is asked of an insertion: the name is a string of `namelen` chars, the buffer
-- of its copy meets neither it nor a key of the table, and the name is not in the table.
pub record CanInsert (key name namelen : ℕ) (t : PortHash) : Type 0 where
  pub length_is : kstrlen name_max name t.bytes ≡ namelen
  pub short : namelen < name_max
  pub clear : Clear key namelen name t.bytes
  pub all_clear : (i : ℕ) → AllClear key namelen t.bytes (t.slots i)
  pub missing : find name (t.slots (index_of name t)) t.bytes ≡ none

module _ (key name namelen val : ℕ) (t : PortHash) (v : IsTable t)
    (c : CanInsert key name namelen t) where
  unfoldable pub copied : PortHash
  copied = record t { bytes = with_key key name namelen t.bytes }

  linked : PortHash
  linked = record copied {
    size = t.size + 1;
    slots =
        update t.slots (index_of name t)
          (record { key = key; val = val } ∷ t.slots (index_of name t));
  }

  copied-IsTable : IsTable copied
  unfolding copied
  copied-IsTable = record {
    some_slots = v.some_slots;
    fits = v.fits;
    apart = λ i.
        Apart-Kept t.bytes (with_key key name namelen t.bytes) (t.slots i)
          (with_key-Kept key name namelen t.bytes (t.slots i) (c.all_clear i)) (v.apart i);
  }

  index-Clear : (k : ℕ) → Clear key namelen k t.bytes → index_of k copied ≡ index_of k t
  unfolding copied
  index-Clear k clear =
      ap (λ h. h % t.capacity)
        (sym (
          hash-SameText name_max k k t.bytes (with_key key name namelen t.bytes)
            (with_key-Clear key name namelen t.bytes k clear)))

  pub hash-key :
      kstr_hash key
        (kstrlen name_max key (with_key key name namelen t.bytes))
        (with_key key name namelen t.bytes)
      ≡ kstr_hash name namelen t.bytes
  hash-key =
      sym (
        hash-SameText name_max name key t.bytes (with_key key name namelen t.bytes)
          (with_key-name key name namelen t.bytes c.length_is c.short c.clear))
      ∙ ap (λ n. kstr_hash name n t.bytes) c.length_is

  pub index-key : index_of key copied ≡ index_of name t
  unfolding copied
  index-key =
      ap (λ h. h % t.capacity)
        (sym (
          hash-SameText name_max name key t.bytes (with_key key name namelen t.bytes)
            (with_key-name key name namelen t.bytes c.length_is c.short c.clear)))

  find-Clear :
      (k i : ℕ)
      → Clear key namelen k t.bytes
      → find k (t.slots i) (with_key key name namelen t.bytes) ≡ find k (t.slots i) t.bytes
  find-Clear k i clear = sym (
      find-SameText k k t.bytes (with_key key name namelen t.bytes) (t.slots i)
        (with_key-Clear key name namelen t.bytes k clear)
        (with_key-Kept key name namelen t.bytes (t.slots i) (c.all_clear i)))

  pub missing_still :
      (i : ℕ)
      → find name (t.slots i) (with_key key name namelen t.bytes) ≡ none
      → find name (copied.slots i) copied.bytes ≡ none
  unfolding copied
  missing_still i e = e

  pub located : do_locate name namelen copied ≡ Located.entry none
  located =
      let index = index-Clear name c.clear in
      do_locate-find name namelen copied copied-IsTable c.short
      ∙ ap (λ i. Located.entry (find name (copied.slots i) copied.bytes)) index
      ∙ ap Located.entry
          (missing_still (index_of name t) (find-Clear name (index_of name t) c.clear ∙ c.missing))

  insert_entry :
      do_insert (record { key = key; val = val }) (record copied { size = t.size + 1 })
      ≡ some linked
  unfolding do_insert copied linked
  insert_entry =
      let fits = index_of-fits name t v in
      let inside : ltb (index_of name t) t.allocated ≡ true = ground arith in
      rw (index-key, inside) refl

  grow-light :
      (new : Option ℕ)
      → t.size * 100 / t.capacity < load_factor
      → grow new (record { key = key; val = val }) copied ≡ Inserted.inserted linked
  unfolding grow insert_grown copied
  grow-light new light =
      let below : leb load_factor (t.size * 100 / t.capacity) ≡ false = ground arith in
      rw (below, insert_entry, insert_grown) refl

  insert-linked :
      (a : ℕ) (new : Option ℕ)
      → t.size * 100 / t.capacity < load_factor
      → port_hash_insert (some a) (some key) new name namelen val t ≡ Inserted.inserted linked
  unfolding port_hash_insert insert_located copied
  insert-linked a new light =
      ap (insert_located new (record { key = key; val = val }) copied) located
      ∙ grow-light new light

  key_missing : find key (t.slots (index_of name t)) (with_key key name namelen t.bytes) ≡ none
  key_missing =
      sym (
        find-SameText name key t.bytes (with_key key name namelen t.bytes)
          (t.slots (index_of name t))
          (with_key-name key name namelen t.bytes c.length_is c.short c.clear)
          (with_key-Kept key name namelen t.bytes (t.slots (index_of name t))
            (c.all_clear (index_of name t))))
      ∙ c.missing

  linked-Apart : (i : ℕ) → Apart linked.bytes (linked.slots i)
  unfolding linked copied
  linked-Apart i =
      let old = λ (j : ℕ).
        Apart-Kept t.bytes (with_key key name namelen t.bytes) (t.slots j)
          (with_key-Kept key name namelen t.bytes (t.slots j) (c.all_clear j)) (v.apart j) in
      elim (Bool-cases (i == index_of name t)) [
        | inl e ↦ rw e (key_missing, old (index_of name t))
        | inr e ↦ rw e (old i)
      ]

  linked-IsTable : IsTable linked
  unfolding linked copied
  linked-IsTable = record { some_slots = v.some_slots; fits = v.fits; apart = linked-Apart }

  test-name :
      (k : ℕ)
      → Clear key namelen k t.bytes
      → kstrequ name_max k key (with_key key name namelen t.bytes) ≡ kstrequ name_max k name t.bytes
  test-name k clear = sym (
      kstrequ-SameText name_max k name k key t.bytes (with_key key name namelen t.bytes)
        (with_key-Clear key name namelen t.bytes k clear)
        (with_key-name key name namelen t.bytes c.length_is c.short c.clear))

  find-linked :
      (k : ℕ)
      → Clear key namelen k t.bytes
      → port_of (find k (linked.slots (index_of k t)) linked.bytes) ≡ (
          if kstrequ name_max k name t.bytes
          then val
          else port_of (find k (t.slots (index_of k t)) t.bytes))
  unfolding linked copied find
  find-linked k clear = elim (Bool-cases (index_of k t == index_of name t)) [
    | inr e ↦ rw (e, other_index k name t e, find-Clear k (index_of k t) clear) refl
    | inl e ↦
        let same : index_of k t ≡ index_of name t = ground arith in
        elim (Bool-cases (kstrequ name_max k name t.bytes)) [
          | inl hit ↦ rw (e, test-name k clear, hit) refl
          | inr miss ↦
              rw (e, test-name k clear, miss, ← same, find-Clear k (index_of k t) clear) refl
        ]
  ]

-- With memory for the entry and its key, a name that is not in the table, and below the load at
-- which the table grows, `port_hash_insert` succeeds, and afterwards `port_hash_fetch` finds the new
-- port under every buffer that holds the name, and under all others what it found before.
pub port_hash_insert_lem :
    (key name namelen val a : ℕ) (new : Option ℕ) (t : PortHash)
    → IsTable t
    → CanInsert key name namelen t
    → t.size * 100 / t.capacity < load_factor
    → (t' : PortHash) × (port_hash_insert (some a) (some key) new name namelen val t
        ≡ Inserted.inserted t')
      × IsTable t'
      × (t'.size ≡ t.size + 1)
      × ((k klen p : ℕ)
          → klen < name_max
          → Clear key namelen k t.bytes
          → port_hash_fetch k klen t ≡ Fetched.port p t
          → port_hash_fetch k klen t'
            ≡ Fetched.port (if kstrequ name_max k name t.bytes then val else p) t')
unfolding linked copied
port_hash_insert_lem key name namelen val a new t v c light = (
  linked key name namelen val t v c,
  insert-linked key name namelen val t v c a new light,
  linked-IsTable key name namelen val t v c,
  refl,
  λ k klen p short clear was.
      let now =
        port_hash_fetch-find k klen (linked key name namelen val t v c)
          (linked-IsTable key name namelen val t v c) short in
      let index = index-Clear key name namelen val t v c k clear in
      let before : port_of (find k (t.slots (index_of k t)) t.bytes) ≡ p =
        port_inj (sym (port_hash_fetch-find k klen t v short) ∙ was) in
      now
      ∙ ap (λ x. Fetched.port x (linked key name namelen val t v c))
          (ap
              (λ i. port_of (
                find k ((linked key name namelen val t v c).slots i)
                  (linked key name namelen val t v c).bytes))
              index
            ∙ find-linked key name namelen val t v c k clear
            ∙ ap (λ x. if kstrequ name_max k name t.bytes then val else x) before),
)
