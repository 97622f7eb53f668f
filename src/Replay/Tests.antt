-- ===== src/Replay/Tests.antt =====
-- A file thread with an event to queue, a handler thread with an event to dispatch, and the theorems at
-- them.
mod Booting
mod Waiting
use mimic_generator.Common.{◌≡◌, refl, inl, some, List, [], ◌∷◌, ◌++◌, map, All, arith}
use mimic_generator.Common.Int.{ℤ, pos, negsuc, ◌≤ℤ◌}
use mimic_generator.Event.{Event}
use mimic_generator.EventHeap.{next_event, next_event_time}
use mimic_generator.EventHeap.ListHeap.{list_heap}
use mimic_generator.EventQueue.Spec.{Fifo, push, pop, next_time}
use mimic_generator.Connections.Dotted.{dotted_inet}
use mimic_generator.PollHandler.{PollHandler, fill}
use mimic_generator.EventHandler.Tests.{mild, H, started, sends, late_send}
use mimic_generator.EventHandler.Tests.Rounds.{no_polls, after_wait, at_half, woken, test_round}
use mimic_generator.FileWorker.Tests.{digits, worker, loaded_event}
use mimic_generator.Replay.{
  enters, enters_loop, State, queue_event, handle_event, Reach, start, later, queues, handles,
  tests, Run, ends, defers, looks_again, sleeps, accepts, waits, timeout,
}
use mimic_generator.EventNotifier.{event_notifier}
use mimic_generator.FileWorker.Events.{FileWorker}
use mimic_generator.FileWorker.Startup.{queue_events, loop_round}
use mimic_generator.Os.{History, Call}
use mimic_generator.PollHandler
use mimic_generator.EventHandler.Dispatch.{check_deferred}
use mimic_generator.EventHandler.Loop.{wake_file_worker}
use mathlib.Core.List.{not-mem-nil}
use mimic_generator.EventHandler.Loop.{poll_connections}
use mimic_generator.EventHeap.Order.{IsOrdered}
use mimic_generator.Replay.Order.{InOrder, begins, goes_on, got-IsOrdered}
use mimic_generator.Replay.Sleeping.{Wait, timeout-until_due}
use mimic_generator.Replay.Delivery.{got-queued, tested-taken}
use mimic_generator.Replay.Loops.{loop_round-Run}
use mimic_generator.Replay.Queueing.{Reaches, worker_round-Run}

abbrev pub first_state : State list_heap
first_state = record {
  worker = record worker {
    out_events = sends ∷ [];
    short_term_heap = list_heap.push list_heap.empty loaded_event;
    last_event_time = pos 5000;
  };
  handler = record started { incoming_file_events = sends ∷ [] };
  poll_handler = no_polls;
  next_event_time = pos 2;
  now = pos 10;
  place = tests;
  got = [];
}

starts : Reach mild dotted_inet digits 1 first_state
unfolding next_time
starts =
    later
      (start (record first_state { place = enters })
        (record { nothing_added = refl; nothing_got = refl; place = refl; clock = omega arith }))
      (enters_loop refl refl)

abbrev queued : State list_heap
queued = queue_event list_heap.empty loaded_event first_state

is_queued : Reach mild dotted_inet digits 1 queued
unfolding next_event next_event_time
is_queued = later starts (queues list_heap.empty loaded_event refl refl refl)

abbrev taken_event : State list_heap
taken_event = handle_event mild (loaded_event ∷ []) sends queued

is_taken : Reach mild dotted_inet digits 1 taken_event
unfolding push pop
is_taken = later is_queued (handles (loaded_event ∷ []) sends refl refl refl refl)

got-queued_example :
    (map (λ x. x.0) taken_event.got ++ taken_event.handler.incoming_file_events
      ≡ taken_event.worker.out_events)
    × All (λ x. (pos 0 ≤ℤ x.0.ms_from_start) × (x.0.ms_from_start ≤ℤ x.1)) taken_event.got
got-queued_example = got-queued mild dotted_inet digits 1 is_taken

tested-taken_example :
    (e : Event) × (q : Fifo) × (pop queued.handler.incoming_file_events ≡ (q, some e))
    × (e.ms_from_start ≡ pos 2)
tested-taken_example = tested-taken mild dotted_inet digits 1 is_queued refl refl

-- The handler is at the start of a round, with an empty queue.
abbrev empty_state : State list_heap
empty_state = record first_state {
  handler = at_half;
  poll_handler = no_polls;
  next_event_time = negsuc 0;
}

loop_round-Run_example :
    (log : List (Event × ℤ)) × Run mild dotted_inet digits 1 empty_state (record empty_state {
      handler = woken;
      poll_handler = after_wait;
      next_event_time = negsuc 0;
      now = pos 11;
      place = tests;
      got = log;
    })
loop_round-Run_example =
    loop_round-Run mild dotted_inet digits 1 2 (pos 11) empty_state (negsuc 0) after_wait woken refl
      (omega arith) test_round

-- The file thread has moved its event to the queue, and has waited once.
abbrev moved : FileWorker list_heap
moved = record first_state.worker {
  short_term_heap = list_heap.empty;
  out_events = sends ∷ loaded_event ∷ [];
  file_events_added_count = 1;
}

abbrev one_wait : History
one_wait = Call.epoll_wait (pos 4) (negsuc 0) ∷ []

test_worker_round :
    loop_round mild digits 3 (event_notifier (pos 9) []) no_polls [] first_state.worker
    ≡ some (after_wait, one_wait, moved)
unfolding loop_round queue_events next_event next_event_time PollHandler.wait_for_events
    PollHandler.next_event push
test_worker_round = refl

worker_round-Run_example : Reaches mild dotted_inet digits first_state moved
worker_round-Run_example =
    worker_round-Run mild dotted_inet digits 3 (event_notifier (pos 9) []) no_polls [] first_state
      after_wait one_wait moved test_worker_round
