-- ===== src/ExitTable.antt =====
-- `atexit`, `at_quick_exit`, `exit` and `quick_exit` of the C library, osrt/c/stdlib.c: two tables
-- of functions, which are pointers. What `malloc` or `realloc` gives is an argument: none, or
-- memory with its contents beyond what `realloc` keeps.
mod Tests
pub mod Register
use yomotsu.Base.{
  ℕ, zero, suc, ◌+◌, ◌-◌, ◌*◌, ◌/◌, Bool, true, false, Option, none, some, List, [], ◌∷◌, ltb, ◌==◌,
  if◌then◌else◌, update,
}

abbrev pub init_atexit_size : ℕ
init_atexit_size = 32

-- One of the two tables: the slots, the count, the size, and whether it is the static array that
-- it starts with.
pub record Table : Type 0 where
  pub func : ℕ → ℕ
  pub count : ℕ
  pub size : ℕ
  pub static : Bool

-- Both tables, and whether `errno` was set to `ENOMEM`.
pub record Exits : Type 0 where
  pub atexit_func : Table
  pub at_quick_exit_func : Table
  pub no_memory : Bool

abbrev pub initial_table : Table
initial_table = record { func = λ i. 0; count = 0; size = init_atexit_size; static = true }

-- `malloc` for the static array, whose contents stay behind; `realloc` for any other.
pub grow : ℕ → Option (ℕ → ℕ) → Table → Option Table
grow new_size none t = none
grow new_size (some memory) t = some (record t {
  func = λ i. if t.static then memory i else if ltb i t.size then t.func i else memory i;
  size = new_size;
  static = false;
})

append : ℕ → Table → Table
append f t = record t { func = update t.func t.count f; count = t.count + 1 }

-- The common text of `atexit` and `at_quick_exit`; `none` is the return of -1.
pub register : ℕ → Option (ℕ → ℕ) → ℕ → Table → Option Table
unfolding grow append
register new_size memory f t =
    if t.count == t.size
    then (elim (grow new_size memory t) [ none ↦ none | some t' ↦ some (append f t') ])
    else some (append f t)

with_atexit : Exits → Option Table → Bool × Exits
with_atexit x none = (false, record x { no_memory = true })
with_atexit x (some t) = (true, record x { atexit_func = t })

with_at_quick_exit : Exits → Option Table → Bool × Exits
with_at_quick_exit x none = (false, record x { no_memory = true })
with_at_quick_exit x (some t) = (true, record x { at_quick_exit_func = t })

-- The Boolean is whether the function returns 0.
pub atexit : Option (ℕ → ℕ) → ℕ → Exits → Bool × Exits
unfolding register with_atexit
atexit memory f x = with_atexit x (register (x.atexit_func.size * 3 / 2) memory f x.atexit_func)

pub at_quick_exit : Option (ℕ → ℕ) → ℕ → Exits → Bool × Exits
unfolding register with_at_quick_exit
at_quick_exit memory f x =
    with_at_quick_exit x (register (x.atexit_func.size * 3 / 2) memory f x.at_quick_exit_func)

-- `for (i = n; i > 0; --i) func[i - 1]();`: the functions called, in order.
pub calls : (ℕ → ℕ) → ℕ → List ℕ
calls func zero = []
calls func (suc i) = func i ∷ calls func i

-- The functions called, and the status that `_Exit` is given.
pub exit : ℕ → Exits → List ℕ × ℕ
unfolding calls
exit status x = (calls x.atexit_func.func x.atexit_func.count, status)

pub quick_exit : ℕ → Exits → List ℕ × ℕ
unfolding calls
quick_exit status x = (calls x.at_quick_exit_func.func x.at_quick_exit_func.count, status)
