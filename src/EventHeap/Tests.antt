-- ===== src/EventHeap/Tests.antt =====
-- An EventHeap over an ordered list, and the theorems at it.
use mathlib.Core.List.{Perm}
use mimic_generator.Common.{ℕ, ◌≡◌, refl, [], ◌∷◌, arith}
use mimic_generator.Common.Int.{pos, negsuc}
use mimic_generator.Event.{Event, new_event}
use mimic_generator.EventHeap.{add_event, next_event_time, next_event}
use mimic_generator.EventHeap.ListHeap.{OrderedList, list_heap}
use mimic_generator.EventHeap.Order.{drain, IsOrdered, drain-IsOrdered}

abbrev at_time : ℕ → Event
at_time n = record new_event { ms_from_start = pos n }

-- The events of `eventmain` in src/event.cpp.
four : OrderedList
unfolding add_event
four =
    add_event list_heap
      (add_event list_heap
        (add_event list_heap (add_event list_heap list_heap.empty (at_time 2)) (at_time 3))
        (at_time 2))
      (at_time 1)

test_drain : drain list_heap 5 four ≡ at_time 1 ∷ at_time 2 ∷ at_time 2 ∷ at_time 3 ∷ []
unfolding drain next_event four
test_drain = refl

test_empty : next_event_time list_heap list_heap.empty ≡ negsuc 0
unfolding next_event_time
test_empty = refl

drain-IsOrdered_example :
    Perm (drain list_heap 4 four) (list_heap.contents four) × IsOrdered (drain list_heap 4 four)
unfolding four
drain-IsOrdered_example = drain-IsOrdered list_heap 4 four (omega arith)
