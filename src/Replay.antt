-- ===== src/Replay.antt =====
-- The file thread (src/fileWorker.cpp, `loop`) and the handler thread (src/eventHandler.cpp, `loop`)
-- with the queue of file events between them. A step is what one thread does with the queue at once,
-- together with what it does by itself until its next access.
pub mod Boot
pub mod Delivery
pub mod Loops
pub mod Order
pub mod Queueing
pub mod Sleeping
mod Tests
use mimic_generator.Common.{
  ℕ, suc, ◌≡◌, ◌++◌, true, false, Option, none, some, List, [], ◌∷◌, if◌then◌else◌, ltb,
}
use mimic_generator.Common.Int.{ℤ, pos, ◌-ℤ◌, ◌≤ℤ◌, ltb_ℤ, to_int}
use mimic_generator.Event.{Event}
use mimic_generator.EventHeap.{compare_events, next_event, next_event_time}
use mimic_generator.EventHeap.Contract.{JobHeap}
use mimic_generator.EventQueue.Spec.{Fifo, push, pop, next_time}
use mimic_generator.Os.{Os}
use mimic_generator.Connections.{Inet}
use mimic_generator.PollHandler.{PollHandler, wait_for_events}
use mimic_generator.EventHandler.{Handler}
use mimic_generator.EventHandler.Dispatch.{dispatch, check_deferred}
use mimic_generator.EventHandler.Loop.{
  max_queued_file_events, count_file_event, wake_file_worker, poll_connections,
}
use mimic_generator.EventHandler.FileEvents.{is_due}
use mimic_generator.FileWorker.Events.{FileWorker, Numbers, load_events_up_to}
use mimic_generator.FileWorker.Queueing.{is_loaded, taken}

-- Where the handler thread stands: before its loop, at the test of the inner loop, at the access that
-- follows a dispatch, at the reading of the clock, at the access after it, at the wait for epoll and
-- at the events of epoll.
pub data Place : Type 0 where
  enters tests dispatched checks rereads waits polls : Place

-- The queue is `incoming_file_events` of the handler. What the file thread has added to it from the
-- start is `out_events` of the worker, which no step reads. `got` has the events that the handler
-- thread has taken from the queue, with what `now` was when they were taken and dispatched.
-- `check_deferred` dispatches those of them that wait again, which is not recorded.
pub record State (J : JobHeap compare_events) : Type 0 where
  pub worker : FileWorker J
  pub handler : Handler J
  pub poll_handler : PollHandler
  pub next_event_time : ℤ
  pub now : ℤ
  pub place : Place
  pub got : List (Event × ℤ)

module _ {J : JobHeap compare_events} where
  -- The file thread moves the event `e` from its heap to the queue.
  abbrev pub queue_event : J.Heap → Event → State J → State J
  queue_event heap e s = record s {
    worker =
        if ltb max_queued_file_events (suc s.worker.file_events_added_count)
        then record (taken heap e s.worker) { file_events_added_count = 0 }
        else taken heap e s.worker;
    handler = record s.handler { incoming_file_events = push s.handler.incoming_file_events e };
  }

-- The handler thread has got the event `e`, and `q` is left in the queue.
abbrev pub handle_event : Os → {J : JobHeap compare_events} → Fifo → Event → State J → State J
handle_event os q e s = record s {
  handler =
      dispatch os e s.now (count_file_event os (record s.handler { incoming_file_events = q }));
  place = dispatched;
  got = s.got ++ (e, s.now) ∷ [];
}

-- What `waitForEvents` is given.
abbrev pub timeout : (next_event_time now : ℤ) → ℤ
timeout next_event_time now =
    if ltb_ℤ (pos 0) (next_event_time -ℤ now) then to_int (next_event_time -ℤ now) else pos 0

-- A step of one thread. A load ends with `to_get` events that were added: with
-- `max_queued_file_events` of them, where the program loads events between two waits.
pub data Step (os : Os) (inet : Inet) (numbers : Numbers) (to_get : ℕ) {J : JobHeap compare_events}
    (s t : State J) : Type 0 where
  queues :
      (heap : J.Heap) (e : Event)
      → is_loaded s.worker.last_event_time (next_event_time J s.worker.short_term_heap) ≡ true
      → next_event J s.worker.short_term_heap ≡ (heap, some e)
      → t ≡ queue_event heap e s
      → Step os inet numbers to_get s t
  loads :
      (k : ℕ) (w : FileWorker J)
      → load_events_up_to numbers to_get k s.worker ≡ some w
      → t ≡ record s { worker = w }
      → Step os inet numbers to_get s t
  enters_loop :
      s.place ≡ enters
      → t ≡ record s { next_event_time = next_time s.handler.incoming_file_events; place = tests }
      → Step os inet numbers to_get s t
  handles :
      (q : Fifo) (e : Event)
      → s.place ≡ tests
      → is_due s.now s.next_event_time ≡ true
      → pop s.handler.incoming_file_events ≡ (q, some e)
      → t ≡ handle_event os q e s
      → Step os inet numbers to_get s t
  fails :
      (q : Fifo)
      → s.place ≡ tests
      → is_due s.now s.next_event_time ≡ true
      → pop s.handler.incoming_file_events ≡ (q, none)
      → t ≡ s
      → Step os inet numbers to_get s t
  looks :
      s.place ≡ dispatched
      → t ≡ record s { next_event_time = next_time s.handler.incoming_file_events; place = tests }
      → Step os inet numbers to_get s t
  ends :
      s.place ≡ tests
      → is_due s.now s.next_event_time ≡ false
      → t ≡ record s { handler = wake_file_worker s.handler; place = checks }
      → Step os inet numbers to_get s t
  defers :
      (k : ℕ) (later : ℤ) (h : Handler J)
      → s.place ≡ checks
      → s.now ≤ℤ later
      → check_deferred os k later s.handler ≡ some h
      → t ≡ record s { handler = h; now = later; place = rereads }
      → Step os inet numbers to_get s t
  looks_again :
      s.place ≡ rereads
      → t ≡ record s {
        next_event_time =
            if ltb_ℤ s.next_event_time (pos 0)
            then next_time s.handler.incoming_file_events
            else s.next_event_time;
        place = waits;
      }
      → Step os inet numbers to_get s t
  sleeps :
      s.place ≡ waits
      → t ≡ record s {
        poll_handler =
            (wait_for_events os (timeout s.next_event_time s.now) s.poll_handler s.handler.calls).0;
        handler = record s.handler {
          calls =
              (wait_for_events os
                (timeout s.next_event_time s.now)
                s.poll_handler
                s.handler.calls).1;
        };
        place = polls;
      }
      → Step os inet numbers to_get s t
  accepts :
      (k : ℕ) (p : PollHandler) (h : Handler J)
      → s.place ≡ polls
      → poll_connections os inet k s.now s.poll_handler s.handler ≡ some (p, h)
      → t ≡ record s { poll_handler = p; handler = h; place = tests }
      → Step os inet numbers to_get s t

-- The handler thread has read the clock, and stands before its loop.
pub record Starts {J : JobHeap compare_events} (s : State J) : Type 0 where
  pub nothing_added : s.worker.out_events ≡ s.handler.incoming_file_events
  pub nothing_got : s.got ≡ []
  pub place : s.place ≡ enters
  pub clock : pos 0 ≤ℤ s.now

pub data Reach (os : Os) (inet : Inet) (numbers : Numbers) (to_get : ℕ) {J : JobHeap compare_events}
    : State J → Type 0 where
  start : (s : State J) → Starts s → Reach os inet numbers to_get s
  later :
      {s t : State J}
      → Reach os inet numbers to_get s
      → Step os inet numbers to_get s t
      → Reach os inet numbers to_get t

-- Any number of steps.
pub data Run (os : Os) (inet : Inet) (numbers : Numbers) (to_get : ℕ) {J : JobHeap compare_events}
    (s : State J) : State J → Type 0 where
  here : Run os inet numbers to_get s s
  further :
      {t u : State J}
      → Run os inet numbers to_get s t
      → Step os inet numbers to_get t u
      → Run os inet numbers to_get s u
