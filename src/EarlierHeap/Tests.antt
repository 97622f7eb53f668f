-- ===== src/EarlierHeap/Tests.antt =====
-- The loop of `eventmain` over an ordered list, and the theorem at two events.
use mimic_generator.Common.{◌≡◌, refl, some, [], ◌∷◌, arith}
use mimic_generator.Common.Int.{pos}
use mimic_generator.EventHeap.ListHeap.{list_heap}
use mimic_generator.EarlierHeap.{
  at_time, next_event, add_event, add_events, print_events, event_main,
}
use mimic_generator.EarlierHeap.Sorting.{sort, times, print_events-sort}

test_main : event_main list_heap 5 ≡ some (pos 1 ∷ pos 2 ∷ pos 2 ∷ pos 3 ∷ [])
unfolding event_main print_events add_events add_event next_event
test_main = refl

print_events-sort_example :
    print_events list_heap 3 (add_events list_heap (at_time 9 ∷ at_time 4 ∷ []) list_heap.empty)
    ≡ some (sort (times (at_time 9 ∷ at_time 4 ∷ [])))
print_events-sort_example = print_events-sort list_heap 3 (at_time 9 ∷ at_time 4 ∷ []) (omega arith)
