-- ===== src/Kobject/Fetch.antt =====
-- Which handlers the object table of kernel/k_kobj.c answers to.
use yomotsu.Base.{
  true, none, some, update, ℕ, ◌+◌, ◌-◌, ◌≡◌, ◌≢◌, ◌⊎◌, ◌↔◌, inl, inr, refl, false, arith, ◌==◌,
  if◌then◌else◌, Bool-cases, ℕ_discrete, ◌∙◌,
}
use yomotsu.Kobject.{
  Kobjects, Fetched, zeroed, is_unalloced, kobject_lock_fetch, kobject_free_release,
}
use yomotsu.Kobject.Handles.{is_in_use}

fetch_null :
    (handler : ℕ) (t : Kobjects)
    → kobject_lock_fetch handler t ≡ Fetched.null
    → (handler ≡ 0) ⊎ (is_in_use t (handler - 1) ≡ false)
unfolding kobject_lock_fetch
fetch_null handler t e = elim (Bool-cases (is_in_use t (handler - 1))) [
  | inr unused ↦ inr unused
  | inl used ↦ inl (ground arith)
]

-- `kobject_lock_fetch` refuses 0, a handler beyond the table and one of an object that is not
-- allocated. Any other handler gets its object, locked, or waits for its lock.
pub fetch_null_iff :
    (handler : ℕ) (t : Kobjects)
    → (kobject_lock_fetch handler t ≡ Fetched.null)
      ↔ ((handler ≡ 0) ⊎ (is_in_use t (handler - 1) ≡ false))
unfolding kobject_lock_fetch
fetch_null_iff handler t = ((λ e. fetch_null handler t e), (λ h. ground arith))

free_inv :
    (i : ℕ) (t : Kobjects)
    → (t.kobjects i).locked ≡ true
    → kobject_free_release i t ≡ some (record t { kobjects = update t.kobjects i zeroed })
unfolding kobject_free_release
free_inv i t held = rw held refl

free_unlocked :
    (i : ℕ) (t : Kobjects) → (t.kobjects i).locked ≡ false → kobject_free_release i t ≡ none
unfolding kobject_free_release
free_unlocked i t free = rw free refl

is_in_use-update :
    (i : ℕ) (t : Kobjects) (j : ℕ)
    → is_in_use (record t { kobjects = update t.kobjects i zeroed }) j
      ≡ (if j == i then false else is_in_use t j)
unfolding is_unalloced
is_in_use-update i t j = ground arith

-- The table `t'` answers to the same handlers as `t`, but not to that of the object `i`.
abbrev pub Forgets : ℕ → Kobjects → Kobjects → Type 0
Forgets i t t' =
    (kobject_lock_fetch (i + 1) t' ≡ Fetched.null)
    × ((h : ℕ)
        → h ≢ i + 1
        → (kobject_lock_fetch h t' ≡ Fetched.null) ↔ (kobject_lock_fetch h t ≡ Fetched.null))

same_handler :
    (i h : ℕ) (t t' : Kobjects)
    → ((j : ℕ) → is_in_use t' j ≡ (if j == i then false else is_in_use t j))
    → h ≢ i + 1
    → ((h ≡ 0) ⊎ (is_in_use t' (h - 1) ≡ false)) ↔ ((h ≡ 0) ⊎ (is_in_use t (h - 1) ≡ false))
same_handler i h t t' used ne = elim (ℕ_discrete h 0) [
  | yes z ↦ ((λ r. inl z), (λ r. inl z))
  | no z ↦
      let other : (h - 1 == i) ≡ false = ground arith in
      let same : is_in_use t' (h - 1) ≡ is_in_use t (h - 1) = used (h - 1) ∙ rw other refl in
      rw same ((λ r. r), (λ r. r))
]

forgets_lem :
    (i : ℕ) (t t' : Kobjects)
    → ((j : ℕ) → is_in_use t' j ≡ (if j == i then false else is_in_use t j))
    → Forgets i t t'
forgets_lem i t t' used = (
  (fetch_null_iff (i + 1) t').1 (inr (used (i + 1 - 1) ∙ ground arith)),
  λ h ne. (
    (λ e. (fetch_null_iff h t).1 ((same_handler i h t t' used ne).0 ((fetch_null_iff h t').0 e))),
    (λ e. (fetch_null_iff h t').1 ((same_handler i h t t' used ne).1 ((fetch_null_iff h t).0 e))),
  ),
)

-- `kobject_free_release` of an object whose lock is not held panics. With the lock held it releases
-- the object: the handler fetches nothing then, and no other handler's answer is null that was not,
-- or not null that was.
pub free_then_fetch :
    (i : ℕ) (t : Kobjects)
    → (((t.kobjects i).locked ≡ false) × (kobject_free_release i t ≡ none))
      ⊎ (((t.kobjects i).locked ≡ true)
          × ((t' : Kobjects) × (kobject_free_release i t ≡ some t') × Forgets i t t'))
free_then_fetch i t = elim (Bool-cases (t.kobjects i).locked) [
  | inr free ↦ inl (free, free_unlocked i t free)
  | inl held ↦
      let t' = record t { kobjects = update t.kobjects i zeroed } in
      inr (held, (t', free_inv i t held, forgets_lem i t t' (is_in_use-update i t)))
]

-- An object that was fetched can be released: the two calls together leave a table that answers to
-- the same handlers but that of the object.
pub fetch_then_free :
    (i : ℕ) (t t1 : Kobjects)
    → kobject_lock_fetch (i + 1) t ≡ Fetched.object i t1
    → (t' : Kobjects) × (kobject_free_release i t1 ≡ some t') × Forgets i t1 t'
unfolding kobject_lock_fetch
fetch_then_free i t t1 e =
    let held : (t1.kobjects i).locked ≡ true = ground arith in
    let t' = record t1 { kobjects = update t1.kobjects i zeroed } in
    (t', free_inv i t1 held, forgets_lem i t1 t' (is_in_use-update i t1))
