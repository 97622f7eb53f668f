-- ===== src/EarlierHeap.antt =====
-- src/event.cpp: an EventHandler that is a heap of events only, and the program that prints what comes
-- out of it. The code's std::priority_queue is a parameter, with what EventHeap relies on of it.
pub mod Sorting
mod Tests
use mimic_generator.Common.{
  ℕ, zero, suc, Bool, Option, none, some, List, [], ◌∷◌, if◌then◌else◌, ◌>>=◌,
}
use mimic_generator.Common.Int.{ℤ, pos, ltb_ℤ}
use mimic_generator.Event.{Event, new_event}
use mimic_generator.EventHeap.Contract.{JobHeap}

-- `compareEvents`
abbrev pub compare_events : Event → Event → Bool
compare_events e1 e2 = ltb_ℤ e2.ms_from_start e1.ms_from_start

module _ (J : JobHeap compare_events) where
  unfoldable pub add_event : J.Heap → Event → J.Heap
  add_event h e = J.push h e

  -- None is the null pointer.
  unfoldable pub next_event : J.Heap → J.Heap × Option Event
  next_event h = if J.is_empty h then (h, none) else (J.pop h, some (J.top h))

  -- The loop of `eventmain`, from a call of `next_event` on: the times that it prints. None: the fuel
  -- has run out.
  unfoldable pub print_events : ℕ → J.Heap → Option (List ℤ)
  print_events zero h = none
  print_events (suc k) h =
      let (h, e) = next_event h in
      elim e [
        | none ↦ some []
        | some e ↦ do times ← print_events k h; some (e.ms_from_start ∷ times)
      ]

  unfoldable pub add_events : List Event → J.Heap → J.Heap
  add_events [] h = h
  add_events (e ∷ es) h = add_events es (add_event h e)

abbrev pub at_time : ℕ → Event
at_time n = record new_event { ms_from_start = pos n }

-- The events of `eventmain`, in the order in which it adds them.
abbrev pub stub_events : List Event
stub_events = at_time 2 ∷ at_time 3 ∷ at_time 2 ∷ at_time 1 ∷ []

unfoldable pub event_main : (J : JobHeap compare_events) → ℕ → Option (List ℤ)
event_main J k = print_events J k (add_events J stub_events J.empty)
