-- ===== src/Replay/Tests/Waiting.antt =====
-- A handler thread that waits until its event is due, and the theorems at it.
use mimic_generator.Common.{◌≡◌, refl, inl, inr, [], ◌∷◌, map, arith}
use mimic_generator.Common.Int.{ℤ, pos, negsuc, ◌≤ℤ◌}
use mimic_generator.Common.Int
use mimic_generator.Replay.Tests.{first_state}
use mimic_generator.EventHeap.{next_event, next_event_time}
use mimic_generator.EventHeap.ListHeap.{list_heap}
use mimic_generator.EventQueue.Spec.{push, pop, next_time}
use mimic_generator.Connections.Dotted.{dotted_inet}
use mimic_generator.EventHandler.Tests.{mild, started, late_send}
use mimic_generator.FileWorker.Tests.{digits, worker, loaded, loaded_event}
use mimic_generator.Replay.{
  enters, enters_loop, State, Reach, start, later, queues, handles, loads, looks, ends, defers,
  looks_again, waits, timeout,
}
use mimic_generator.EventHandler.Dispatch.{check_deferred}
use mimic_generator.EventHandler.Loop.{wake_file_worker}
use mathlib.Core.List.{Mem, mem-cons, not-mem-nil}
use mathlib.Core.Logic.Or
use native.Mathlib.Bridge.{le_prop}
use mimic_generator.Event.{Event}
use mimic_generator.EventHeap
use mimic_generator.EventHandler.Dispatch
use mimic_generator.EventHandler.Loop
use mimic_generator.FileWorker.{trim, fields, record_of, load_lines, load_file}
use mimic_generator.FileWorker.Events
use mimic_generator.FileWorker.Events.{FileWorker, load_events_up_to}
use mimic_generator.EventHandler.Loop.{poll_connections}
use mimic_generator.EventHeap.Order.{IsOrdered}
use mimic_generator.Replay.Order.{Latest, InOrder, begins, goes_on, got-IsOrdered}
use mimic_generator.Replay.Sleeping.{Wait, timeout-until_due}

-- The handler with an event that is due at 20, and nothing deferred.
abbrev early_state : State list_heap
early_state = record first_state {
  worker = record worker { out_events = late_send ∷ [] };
  handler = record started {
    incoming_file_events = late_send ∷ [];
    wait_heap = list_heap.empty;
    file_events_handled_count = 0;
  };
  next_event_time = pos 20;
}

is_early : Reach mild dotted_inet digits 1 early_state
unfolding next_time
is_early =
    later
      (start (record early_state { place = enters })
        (record { nothing_added = refl; nothing_got = refl; place = refl; clock = omega arith }))
      (enters_loop refl refl)

about_to_wait : (s : State list_heap) × Reach mild dotted_inet digits 1 s × (s.place ≡ waits)
unfolding wake_file_worker check_deferred next_event
about_to_wait = (
  _,
  later
      (later (later is_early (ends refl refl refl))
        (defers 1 (pos 11) early_state.handler refl (omega arith) refl refl))
      (looks_again refl refl),
  refl,
)

timeout-until_due_example :
    Wait about_to_wait.0.now about_to_wait.0.handler.incoming_file_events
      (timeout about_to_wait.0.next_event_time about_to_wait.0.now)
timeout-until_due_example =
    timeout-until_due mild dotted_inet digits 1 about_to_wait.1 about_to_wait.2

-- An event that is before the one in the file.
abbrev early_event : Event
early_event = record loaded_event { ms_from_start = pos 2 }

-- It is in the heap, and nothing has been queued yet.
abbrev empty_queue : State list_heap
empty_queue = record early_state {
  worker = record worker {
    short_term_heap = list_heap.push list_heap.empty early_event;
    last_event_time = pos 2;
  };
  handler = record early_state.handler { incoming_file_events = [] };
  next_event_time = negsuc 0;
  now = pos 6000;
  place = enters;
}

-- The early event has been queued, and the one of the file is loaded.
abbrev reloaded : FileWorker list_heap
reloaded = record loaded { out_events = early_event ∷ []; file_events_added_count = 1 }

late_enough : (x : Event) → Mem x (loaded_event ∷ []) → Latest x (early_event ∷ [])
late_enough x m = (
  Or.elim le_prop (mem-cons.0 m) (λ same. rw same (omega arith)) (λ n. absurd (not-mem-nil n)),
  tt,
)

-- One event is queued, another one is loaded and queued, and both are taken.
in_order : (s : State list_heap) × InOrder mild dotted_inet digits 1 s
unfolding next_time next_event next_event_time push pop load_events_up_to Events.next_rows
    Events.read_stream load_file load_lines record_of fields Events.load_more Events.load_rows
    Events.load_row trim Events.load_my_row Events.event_of Int.◌-ℤ◌ EventHeap.add_event Int.◌+ℤ◌
    Dispatch.dispatch Dispatch.dispatch_as Loop.count_file_event
in_order =
    let q₀ : InOrder mild dotted_inet digits 1 empty_queue =
      begins empty_queue
        (record { nothing_added = refl; nothing_got = refl; place = refl; clock = omega arith })
        refl in
    let q₁ =
      goes_on q₀ (queues list_heap.empty early_event refl refl refl)
        (λ x m. absurd (not-mem-nil m)) in
    let q₂ = goes_on q₁ (loads 2 reloaded refl refl) (λ x m. inr (late_enough x m)) in
    let q₃ =
      goes_on q₂ (queues list_heap.empty loaded_event refl refl refl)
        (λ x m. absurd (not-mem-nil m)) in
    let q₄ = goes_on q₃ (enters_loop refl refl) (λ x m. inl m) in
    let q₅ =
      goes_on q₄ (handles (loaded_event ∷ []) early_event refl refl refl refl) (λ x m. inl m) in
    let q₆ = goes_on q₅ (looks refl refl) (λ x m. inl m) in
    let q₇ = goes_on q₆ (handles [] loaded_event refl refl refl refl) (λ x m. inl m) in (_, q₇)

test_both : map (λ x. x.0.ms_from_start) in_order.0.got ≡ pos 2 ∷ pos 5000 ∷ []
unfolding in_order
test_both = refl

got-IsOrdered_example : IsOrdered (map (λ x. x.0) in_order.0.got)
got-IsOrdered_example = got-IsOrdered mild dotted_inet digits 1 in_order.1
