-- ===== src/PortHash/Lookup.antt =====
-- Lookups in the hash table of ports, kernel/k_port.c, and what they read of the kernel's memory.
use yomotsu.Base.{
  ℕ, ◌≤◌, ◌<◌, ◌%◌, ◌≡◌, inl, inr, refl, true, false, arith, ◌∙◌, sym, ap, Bool-cases, Option, none,
  some, List, [], ◌∷◌, leb, ltb, ◌==◌,
}
use yomotsu.KString.{Memory, kstrequ}
use yomotsu.KString.Strings.{kstrequ_iff}
use yomotsu.KString.Texts.{SameText, hash-SameText, kstrequ-SameText, kstrequ-equal}
use yomotsu.PortHash.{
  Entry, PortHash, name_max, index_of, find, Located, do_locate, Fetched, fetch_located,
  port_hash_fetch,
}

-- The keys in a slot are different texts.
abbrev pub Apart : Memory → List Entry → Type 0
Apart m [] = Unit
Apart m (e ∷ es) = (find e.key es m ≡ none) × Apart m es

-- All slots that a hash can lead to are allocated, and no key stands in the table twice.
pub record IsTable (t : PortHash) : Type 0 where
  pub some_slots : 0 < t.capacity
  pub fits : t.capacity ≤ t.allocated
  pub apart : (i : ℕ) → Apart t.bytes (t.slots i)

-- The keys of the entries have the same texts in both memories.
abbrev pub Kept : Memory → Memory → List Entry → Type 0
Kept m m' [] = Unit
Kept m m' (e ∷ es) = SameText name_max m e.key m' e.key × Kept m m' es

pub find-SameText :
    (k k' : ℕ) (m m' : Memory) (es : List Entry)
    → SameText name_max m k m' k'
    → Kept m m' es
    → find k es m ≡ find k' es m'
unfolding find
find-SameText k k' m m' [] s kept = refl
find-SameText k k' m m' (e ∷ es) s kept =
    let test = kstrequ-SameText name_max k e.key k' e.key m m' s kept.0 in
    let rest = find-SameText k k' m m' es s kept.1 in rw (test, rest) refl

pub find-equal :
    (a b : ℕ) (m : Memory) (es : List Entry)
    → kstrequ name_max a b m ≡ true
    → find a es m ≡ find b es m
unfolding find
find-equal a b m [] e = refl
find-equal a b m (x ∷ xs) e =
    let test = kstrequ-equal name_max a b x.key m e in
    let rest = find-equal a b m xs e in rw (test, rest) refl

pub Apart-Kept : (m m' : Memory) (es : List Entry) → Kept m m' es → Apart m es → Apart m' es
Apart-Kept m m' [] kept a = tt
Apart-Kept m m' (e ∷ es) kept a =
    (sym (find-SameText e.key e.key m m' es kept.0 kept.1) ∙ a.0, Apart-Kept m m' es kept.1 a.1)

pub index_of-fits : (k : ℕ) (t : PortHash) → IsTable t → index_of k t < t.allocated
index_of-fits k t v = omega (arith, v.some_slots, v.fits)

pub do_locate-find :
    (k klen : ℕ) (t : PortHash)
    → IsTable t
    → klen < name_max
    → do_locate k klen t ≡ Located.entry (find k (t.slots (index_of k t)) t.bytes)
unfolding do_locate
do_locate-find k klen t v short =
    let long : leb name_max klen ≡ false = ground arith in
    let inside : ltb (index_of k t) t.allocated ≡ true =
      let fits = index_of-fits k t v in ground arith in
    rw (long, inside) refl

-- The port of an entry, 0 for none.
abbrev pub port_of : Option Entry → ℕ
port_of none = 0
port_of (some e) = e.val

fetch_located-entry :
    (t : PortHash) (o : Option Entry)
    → fetch_located t (Located.entry o) ≡ Fetched.port (port_of o) t
unfolding fetch_located
fetch_located-entry t none = refl
fetch_located-entry t (some e) = refl

pub port_hash_fetch-find :
    (k klen : ℕ) (t : PortHash)
    → IsTable t
    → klen < name_max
    → port_hash_fetch k klen t ≡ Fetched.port (port_of (find k (t.slots (index_of k t)) t.bytes)) t
unfolding port_hash_fetch
port_hash_fetch-find k klen t v short =
    ap (fetch_located t) (do_locate-find k klen t v short) ∙ fetch_located-entry t _

pub port_inj : {a b : ℕ} {t u : PortHash} → Fetched.port a t ≡ Fetched.port b u → a ≡ b
port_inj e = cc

-- A name of another index is another name.
pub other_index :
    (k name : ℕ) (t : PortHash)
    → (index_of k t == index_of name t) ≡ false
    → kstrequ name_max k name t.bytes ≡ false
other_index k name t ne = elim (Bool-cases (kstrequ name_max k name t.bytes)) [
  | inr e ↦ e
  | inl e ↦
      let text = (kstrequ_iff name_max k name t.bytes).0 e in
      let same = ap (λ h. h % t.capacity) (hash-SameText name_max k name t.bytes t.bytes text) in
      absurd (ground arith)
]
