-- ===== src/Kobject/Tests.antt =====
-- The object table of kernel/k_kobj.c at concrete states.
use yomotsu.Base.{update, none, some, ℕ, ◌<◌, ◌≡◌, ◌⊎◌, refl, true, false, arith, ltb}
use yomotsu.Kobject.{
  KobjType, Kobject, Kobjects, Fetched, is_unalloced, kobject_alloc_lock, kobject_free_release,
}
use yomotsu.Kobject.Handles.{Allocated, alloc_lock_lem}
use yomotsu.Kobject.Fetch.{Forgets, free_then_fetch}

abbrev port : Kobject
port = record { type = KobjType.port_client_ref; locked = false; ptr = 4096 }

-- A table of four ports.
abbrev full_table : Kobjects
full_table = record { kobjects = λ i. port; size = 4 }

alloc_lock_lem_example :
    (((j : ℕ) → j < 4 → is_unalloced port.type ≡ false)
      × (true ≡ false)
      × (kobject_alloc_lock true full_table ≡ Fetched.null))
    ⊎ ((i : ℕ) × (t' : Kobjects) × (kobject_alloc_lock true full_table ≡ Fetched.object i t')
        × Allocated i full_table t'
        × ((t'.kobjects i).locked ≡ ltb i 4))
alloc_lock_lem_example = alloc_lock_lem true full_table (omega arith) (λ j h. refl)

-- The same with the second one locked, as `kobject_lock_fetch` leaves it.
abbrev fetched_table : Kobjects
fetched_table = record full_table {
  kobjects = update full_table.kobjects 1 (record port { locked = true });
}

free_then_fetch_example :
    ((true ≡ false) × (kobject_free_release 1 fetched_table ≡ none))
    ⊎ ((true ≡ true)
        × ((t' : Kobjects) × (kobject_free_release 1 fetched_table ≡ some t')
            × Forgets 1 fetched_table t'))
free_then_fetch_example = free_then_fetch 1 fetched_table
