-- ===== src/EventHeap.antt =====
-- src/eventQueue.cpp, class EventHeap: a priority queue of events, the earliest first. The code's
-- std::priority_queue is a parameter, `JobHeap`.
pub mod Contract
pub mod ListHeap
pub mod Order
mod Tests
use mimic_generator.Common.{Bool, Option, none, some, if◌then◌else◌}
use mimic_generator.Common.Int.{ℤ, negsuc, ltb_ℤ}
use mimic_generator.Event.{Event}
use Contract.{JobHeap}

-- `compareEvents`: an event that starts later is less.
abbrev pub compare_events : Event → Event → Bool
compare_events e₁ e₂ = ltb_ℤ e₂.ms_from_start e₁.ms_from_start

module _ (J : JobHeap compare_events) where
  unfoldable pub add_event : J.Heap → Event → J.Heap
  add_event h e = J.push h e

  unfoldable pub next_event_time : J.Heap → ℤ
  next_event_time h = if J.is_empty h then negsuc 0 else (J.top h).ms_from_start

  -- None is the null pointer.
  unfoldable pub next_event : J.Heap → J.Heap × Option Event
  next_event h = if J.is_empty h then (h, none) else (J.pop h, some (J.top h))
