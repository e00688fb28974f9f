-- ===== src/Timer/Tests.antt =====
-- The timeout heap of kernel/k_timer.c at concrete states.
use yomotsu.Base.{
  ℕ, ◌+◌, ◌-◌, ◌*◌, ◌%◌, ◌≤◌, ◌<◌, ◌≡◌, ◌⊎◌, refl, Bool, true, false, none, some, arith,
  if◌then◌else◌,
}
use yomotsu.Timer.{
  Elem, TimerHeap, Extracted, timer_heap_insert, timer_heap_extract, timer_heap_top,
}
use yomotsu.Timer.Order.{IsHeap, key, tally}
use yomotsu.Timer.Insert.{OneMore, insert-IsHeap}
use yomotsu.Timer.Extract.{extract-IsHeap}

-- The element at index `i` is due at `10 * i`.
abbrev slots : ℕ → Elem
slots i = record { deadline = 10 * i; callback = 0; arg = 0 }

abbrev three : TimerHeap
three = record { heap = slots; end = 4; size = 32 }

three-IsHeap : IsHeap slots 4
three-IsHeap = record { ordered = λ j lo hi. omega arith; zero_first = refl }

abbrev urgent : Elem
urgent = record { deadline = 5; callback = 1; arg = 2 }

insert-IsHeap_example :
    ((timer_heap_insert true urgent three ≡ none) × (true ≡ false) × (three.end ≡ three.size))
    ⊎ ((t' : TimerHeap) × (timer_heap_insert true urgent three ≡ some t')
        × IsHeap t'.heap t'.end
        × (t'.end ≡ three.end + 1)
        × (t'.end ≤ t'.size)
        × OneMore urgent three t')
insert-IsHeap_example = insert-IsHeap true urgent three three-IsHeap (omega arith) (omega arith)

extract-IsHeap_example :
    ((timer_heap_extract three ≡ Extracted.null_read) × ((three.end - 2) % 2 ≡ 0))
    ⊎ ((t' : TimerHeap) × (timer_heap_extract three ≡ Extracted.left t')
        × IsHeap t'.heap t'.end
        × (t'.end + 1 ≡ three.end)
        × ((j : ℕ) → 1 ≤ j → j < three.end → (timer_heap_top three).deadline ≤ key three.heap j)
        × ((p : Elem → Bool)
            → tally p t'.heap t'.end + (if p (timer_heap_top three) then 1 else 0)
              ≡ tally p three.heap three.end))
extract-IsHeap_example = extract-IsHeap three three-IsHeap (omega arith)
