-- ===== src/Kobject/Handles.antt =====
-- The handlers that the object table of kernel/k_kobj.c gives out.
use yomotsu.Base.{
  ℕ, zero, suc, ◌+◌, ◌*◌, ◌/◌, ◌≤◌, ◌<◌, ◌≡◌, ◌≢◌, ◌⊎◌, inl, inr, refl, subst, Bool, true, false,
  Option, none, some, arith, ltb, if◌then◌else◌, Bool-cases, Option-cases, ℕ_discrete,
}
use yomotsu.Kobject.{
  zeroed, KobjType, Kobject, Kobjects, Fetched, is_unalloced, all_unlocked, expand_kobjects,
  find_unalloced, prealloc, take_new, take_found, kobject_alloc_lock,
}

abbrev pub is_in_use : Kobjects → ℕ → Bool
is_in_use t i = if is_unalloced (t.kobjects i).type then false else ltb i t.size

-- What `find_unalloced` finds: the first object that is not allocated.
abbrev Finds : ℕ → ℕ → (ℕ → Kobject) → Option ℕ → Type 0
Finds n i objects none = (j : ℕ) → i ≤ j → j < i + n → is_unalloced (objects j).type ≡ false
Finds n i objects (some k) =
    (i ≤ k)
    × (k < i + n)
    × (is_unalloced (objects k).type ≡ true)
    × ((j : ℕ) → i ≤ j → j < k → is_unalloced (objects j).type ≡ false)

Finds-later :
    (n i : ℕ) (objects : ℕ → Kobject) (r : Option ℕ)
    → is_unalloced (objects i).type ≡ false
    → Finds n (i + 1) objects r
    → Finds (suc n) i objects r
Finds-later n i objects none e f = λ j lo hi. elim (ℕ_discrete i j) [
  | yes q ↦ subst (λ k. is_unalloced (objects k).type ≡ false) q e
  | no q ↦ f j (omega arith) (omega arith)
]
Finds-later n i objects (some k) e f = (
  omega arith,
  omega arith,
  f.2,
  λ j lo hi. elim (ℕ_discrete i j) [
    | yes q ↦ subst (λ k. is_unalloced (objects k).type ≡ false) q e
    | no q ↦ f.3 j (omega arith) hi
  ],
)

find_unalloced-Finds :
    (n i : ℕ) (objects : ℕ → Kobject) → Finds n i objects (find_unalloced n i objects)
unfolding find_unalloced
find_unalloced-Finds zero i objects = λ j lo hi. absurd (omega arith)
find_unalloced-Finds (suc n) i objects = elim (Bool-cases (is_unalloced (objects i).type)) [
  | inl e ↦ rw (e, find_unalloced) (omega arith, omega arith, e, λ j lo hi. absurd (omega arith))
  | inr e ↦
      rw (e, find_unalloced)
        (Finds-later n i objects (find_unalloced n (i + 1) objects) e
          (find_unalloced-Finds n (i + 1) objects))
]

-- Object `i` of `new` is one that was not in use in `old` and is preallocated now; every object of
-- `old` but that one keeps its type and its pointer.
pub record Allocated (i : ℕ) (old new : Kobjects) : Type 0 where
  pub inside : i < new.size
  pub was_unused : is_in_use old i ≡ false
  pub now_prealloced : (new.kobjects i).type ≡ KobjType.prealloced
  pub others :
      (j : ℕ)
      → j < old.size
      → j ≢ i
      → ((new.kobjects j).type ≡ (old.kobjects j).type)
        × ((new.kobjects j).ptr ≡ (old.kobjects j).ptr)

abbrev IsFree : Kobjects → ℕ → Type 0
IsFree t i = (i < t.size) × (is_unalloced (t.kobjects i).type ≡ true)

abbrev IsFull : Kobjects → Type 0
IsFull t = (j : ℕ) → j < t.size → is_unalloced (t.kobjects j).type ≡ false

all_unlocked-true :
    (objects : ℕ → Kobject) (n : ℕ)
    → ((j : ℕ) → j < n → (objects j).locked ≡ false)
    → all_unlocked objects n ≡ true
unfolding all_unlocked
all_unlocked-true objects zero h = refl
all_unlocked-true objects (suc n) h =
    rw (h n (omega arith)) (all_unlocked-true objects n (λ j lt. h j (omega arith)))

-- The table after an expansion, and with the first new object preallocated.
abbrev expanded : Kobjects → Kobjects
expanded t = record {
  kobjects = λ i. if ltb i t.size then record (t.kobjects i) { locked = false } else zeroed;
  size = t.size * 3 / 2;
}

abbrev new_object : Kobjects → Kobjects
new_object t = prealloc t.size ((expanded t).kobjects t.size).locked (expanded t)

new_object-Allocated : (t : Kobjects) → 2 ≤ t.size → Allocated t.size t (new_object t)
unfolding prealloc
new_object-Allocated t big = record {
  inside = omega arith;
  was_unused = ground arith;
  now_prealloced = ground arith;
  others = λ j lt ne. (ground arith, ground arith);
}

-- With nobody who holds a lock of the table, and a table of at least two objects,
-- `kobject_alloc_lock` returns null only if every object is in use and there is no memory for a
-- larger table. Else it returns an object that was not in use, preallocated now, and all others are
-- as before. It holds the object's lock just if the table had not to be expanded: the new object
-- of an expanded table is returned without its lock.
pub alloc_lock_lem :
    (room : Bool) (t : Kobjects)
    → 2 ≤ t.size
    → ((j : ℕ) → j < t.size → (t.kobjects j).locked ≡ false)
    → (((j : ℕ) → j < t.size → is_unalloced (t.kobjects j).type ≡ false)
        × (room ≡ false)
        × (kobject_alloc_lock room t ≡ Fetched.null))
      ⊎ ((i : ℕ) × (t' : Kobjects) × (kobject_alloc_lock room t ≡ Fetched.object i t')
          × Allocated i t t'
          × ((t'.kobjects i).locked ≡ ltb i t.size))
unfolding kobject_alloc_lock take_found take_new expand_kobjects prealloc
alloc_lock_lem room t big free = elim (Option-cases (find_unalloced t.size 0 t.kobjects)) [
  | inl n ↦
      let full = subst (Finds t.size 0 t.kobjects) n (find_unalloced-Finds t.size 0 t.kobjects) in
      elim (Bool-cases room) [
        | inr e ↦ inl ((λ j h. full j (omega arith) (omega arith)), e, rw (n, e, take_found) refl)
        | inl e ↦ inr (
          t.size,
          new_object t,
          rw (n, e, all_unlocked-true t.kobjects t.size free, take_found) refl,
          new_object-Allocated t big,
          ground arith,
        )
      ]
  | inr (i, n) ↦
      let first = subst (Finds t.size 0 t.kobjects) n (find_unalloced-Finds t.size 0 t.kobjects) in
      inr (
        i,
        prealloc i true t,
        rw (n, take_found, free i (omega (arith, first.1))) refl,
        record {
          inside = omega (arith, first.1);
          was_unused = rw first.2 refl;
          now_prealloced = ground arith;
          others = λ j lt ne. (ground arith, ground arith);
        },
        ground (arith, first.1),
      )
]
