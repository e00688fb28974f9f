-- ===== src/ExitTable/Register.antt =====
-- What `exit` calls after a registration, in osrt/c/stdlib.c.
use yomotsu.Base.{
  ℕ, zero, suc, ◌*◌, ◌/◌, ◌≤◌, ◌<◌, ◌≡◌, ◌⊎◌, inl, inr, refl, ap, ◌∙◌, true, false, Option, none,
  some, List, ◌∷◌, arith, ltb, ◌==◌, if◌then◌else◌, update, Bool-cases, add-one,
}
use yomotsu.ExitTable.{
  Table, Exits, grow, append, register, with_atexit, with_at_quick_exit, atexit, at_quick_exit,
  calls, exit,
}

calls-eq : (f g : ℕ → ℕ) (n : ℕ) → ((i : ℕ) → i < n → f i ≡ g i) → calls f n ≡ calls g n
unfolding calls
calls-eq f g zero h = refl
calls-eq f g (suc n) h =
    ground (arith, h n (omega arith), calls-eq f g n (λ i lt. h i (omega arith)))

calls-append :
    (f : ℕ) (t : Table) → calls (append f t).func (append f t).count ≡ f ∷ calls t.func t.count
unfolding append calls
calls-append f t =
    rw (add-one t.count)
      (ground (arith, calls-eq (update t.func t.count f) t.func t.count (λ i lt. ground arith)))

-- What a registration comes to: it fails for lack of memory, or the calls are the new function and
-- `before`.
abbrev Registers : Option (ℕ → ℕ) → ℕ → Table → List ℕ → Option Table → Type 0
Registers memory f t before r =
    ((r ≡ none) × (memory ≡ none) × (t.count ≡ t.size))
    ⊎ ((t' : Table) × (r ≡ some t') × (calls t'.func t'.count ≡ f ∷ before))

full-Registers :
    (new_size : ℕ) (memory : Option (ℕ → ℕ)) (f : ℕ) (t : Table)
    → t.count ≡ t.size
    → t.static ≡ false
    → Registers memory f t (calls t.func t.count) (register new_size memory f t)
unfolding register grow
full-Registers new_size none f t full moved = inl (ground arith, refl, full)
full-Registers new_size (some m) f t full moved =
    let larger : Table = record t {
      func = λ i. if t.static then m i else if ltb i t.size then t.func i else m i;
      size = new_size;
      static = false;
    } in
    let test : (t.count == t.size) ≡ true = ground arith in
    inr (
      append f larger,
      rw test refl,
      calls-append f larger
          ∙ ap (λ cs. f ∷ cs) (calls-eq larger.func t.func t.count (λ i lt. ground arith)),
    )

register-Registers :
    (new_size : ℕ) (memory : Option (ℕ → ℕ)) (f : ℕ) (t : Table)
    → t.count ≤ t.size
    → (t.count < t.size) ⊎ (t.static ≡ false)
    → Registers memory f t (calls t.func t.count) (register new_size memory f t)
unfolding register
register-Registers new_size memory f t le keeps = elim (Bool-cases (t.count == t.size)) [
  | inr e ↦ inr (append f t, rw e refl, calls-append f t)
  | inl e ↦
      full-Registers new_size memory f t (ground arith)
        (elim keeps [ inl lt ↦ absurd (ground arith) | inr moved ↦ moved ])
]

-- While its table has a free slot, or has moved out of its static array, `atexit` returns 0, and
-- `exit` then calls the new function first and the others after it, as before; or `atexit` returns
-- -1 and changes nothing but `errno`, which happens only if the table is full and there is no
-- memory.
pub atexit_then_exit :
    (memory : Option (ℕ → ℕ)) (f status : ℕ) (x : Exits)
    → x.atexit_func.count ≤ x.atexit_func.size
    → (x.atexit_func.count < x.atexit_func.size) ⊎ (x.atexit_func.static ≡ false)
    → ((atexit memory f x ≡ (false, record x { no_memory = true }))
        × (memory ≡ none)
        × (x.atexit_func.count ≡ x.atexit_func.size))
      ⊎ (((atexit memory f x).0 ≡ true)
          × (exit status (atexit memory f x).1 ≡ (f ∷ (exit status x).0, status)))
unfolding atexit exit with_atexit
atexit_then_exit memory f status x le keeps =
    elim (register-Registers (x.atexit_func.size * 3 / 2) memory f x.atexit_func le keeps) [
      | inl (r, m, full) ↦ inl (rw r refl, m, full)
      | inr (t, r, c) ↦ inr (rw r refl, rw r (ap (λ cs. (cs, status)) c))
    ]

-- The registration that finds the static array full moves to the memory that `malloc` gives, but
-- does not copy the 32 functions there: `exit` then calls the new function and whatever the memory
-- held.
pub atexit_forgets :
    (memory : ℕ → ℕ) (f status : ℕ) (x : Exits)
    → x.atexit_func.count ≡ x.atexit_func.size
    → x.atexit_func.static ≡ true
    → exit status (atexit (some memory) f x).1 ≡ (f ∷ calls memory x.atexit_func.count, status)
unfolding atexit exit with_atexit register grow
atexit_forgets memory f status x full static =
    let t = x.atexit_func in
    let larger : Table = record t {
      func = λ i. if t.static then memory i else if ltb i t.size then t.func i else memory i;
      size = t.size * 3 / 2;
      static = false;
    } in
    let test : (t.count == t.size) ≡ true = ground arith in
    rw test (
      ap (λ cs. (cs, status))
        (calls-append f larger
          ∙ ap (λ cs. f ∷ cs) (calls-eq larger.func memory t.count (λ i lt. ground arith))))

-- `at_quick_exit` sizes its new table by the size of the other table: when its own table has grown
-- to at least half as much again as that one, the new function is written behind the end of the
-- memory.
pub at_quick_exit_overflows :
    (memory : ℕ → ℕ) (f : ℕ) (x : Exits)
    → x.at_quick_exit_func.count ≡ x.at_quick_exit_func.size
    → x.atexit_func.size * 3 / 2 ≤ x.at_quick_exit_func.size
    → let t = (at_quick_exit (some memory) f x).1.at_quick_exit_func in t.size < t.count
unfolding at_quick_exit with_at_quick_exit register grow append
at_quick_exit_overflows memory f x full small =
    let test : (x.at_quick_exit_func.count == x.at_quick_exit_func.size) ≡ true = ground arith in
    rw test (omega arith)
