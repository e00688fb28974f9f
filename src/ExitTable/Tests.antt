-- ===== src/ExitTable/Tests.antt =====
-- The exit functions of osrt/c/stdlib.c at concrete states.
use yomotsu.Base.{ℕ, ◌≡◌, ◌⊎◌, inl, true, false, Option, none, ◌∷◌, arith}
use yomotsu.ExitTable.{Table, Exits, initial_table, atexit, exit}
use yomotsu.ExitTable.Register.{atexit_then_exit}

abbrev at_start : Exits
at_start = record {
  atexit_func = initial_table;
  at_quick_exit_func = initial_table;
  no_memory = false;
}

abbrev full_static : Table
full_static = record { func = λ i. 7; count = 32; size = 32; static = true }

-- 32 functions for `exit`, and 48 for `quick_exit`.
abbrev at_limit : Exits
at_limit = record {
  atexit_func = full_static;
  at_quick_exit_func = record { func = λ i. 8; count = 48; size = 48; static = false };
  no_memory = false;
}

abbrev garbage : ℕ → ℕ
garbage i = 0

atexit_then_exit_example :
    ((atexit none 5 at_start ≡ (false, record at_start { no_memory = true }))
      × (◌≡◌ {A = Option (ℕ → ℕ)} none none)
      × (at_start.atexit_func.count ≡ at_start.atexit_func.size))
    ⊎ (((atexit none 5 at_start).0 ≡ true)
        × (exit 1 (atexit none 5 at_start).1 ≡ (5 ∷ (exit 1 at_start).0, 1)))
atexit_then_exit_example = atexit_then_exit none 5 1 at_start (omega arith) (inl (omega arith))
