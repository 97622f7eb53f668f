-- ===== src/EventHandler/Loop.antt =====
-- src/eventHandler.cpp, `loop`: the part that takes events from the file queue. The queue is that of
-- the start of the part: what the file thread adds meanwhile comes in the next round.
use mimic_generator.Common.{
  ℕ, zero, suc, ◌/◌, ◌%◌, true, ◌&&◌, not, Option, none, some, ◌>>=◌, if◌then◌else◌, ◌==◌, ltb,
}
use mimic_generator.Common.Int.{ℤ, pos, leb_ℤ, ltb_ℤ, ◌-ℤ◌, to_int}
use mimic_generator.EventHeap.{compare_events}
use mimic_generator.EventHeap.Contract.{JobHeap}
use mimic_generator.EventNotifier.{send_signal}
use mimic_generator.EventQueue.Spec.{pop, next_time}
use mimic_generator.Os.{Os}
use mimic_generator.EventHandler.{Handler}
use mimic_generator.EventHandler.Dispatch.{dispatch, check_deferred, accept_new_connection}
use mimic_generator.Connections.{Inet}
use mimic_generator.PollHandler.{PollHandler, no_more, overrun, handed, next_event, wait_for_events}

abbrev pub max_queued_file_events : ℕ
max_queued_file_events = 1000000

module _ (os : Os) {J : JobHeap compare_events} where
  -- An event has been taken: it is counted, and every 100000 events the file thread is told.
  unfoldable pub count_file_event : Handler J → Handler J
  count_file_event h =
      let count = suc h.file_events_handled_count in
      let h = record h { file_events_handled_count = count } in
      if (count % (max_queued_file_events / 10) == 0)
        && not (h.last_event_count_when_requesting_for_more == count)
      then (let (_, calls) = send_signal os h.request_more_file_events h.calls in
          record h { last_event_count_when_requesting_for_more = count; calls = calls })
      else h

  -- The inner loop, which ends with the time of the next event. None: the fuel has run out.
  unfoldable pub file_events : ℕ → (next now : ℤ) → Handler J → Option (ℤ × Handler J)
  file_events zero next now h = none
  file_events (suc k) next now h =
      let (queue, job) = pop h.incoming_file_events in
      let rest : Option (ℤ × Handler J) = elim job [
        | some e ↦
            let h =
              dispatch os e now (count_file_event (record h { incoming_file_events = queue })) in
            file_events k (next_time h.incoming_file_events) now h
        | none ↦ file_events k next now h
      ] in
      if leb_ℤ next now && leb_ℤ (pos 0) next then rest else some (next, h)

module _ {J : JobHeap compare_events} where
  -- After the inner loop, the file thread is woken once more than half of the queue is handled.
  unfoldable pub wake_file_worker : Handler J → Handler J
  wake_file_worker h =
      if ltb (max_queued_file_events / 2) h.file_events_handled_count
      then record h { file_events_handled_count = 0; load_more = true }
      else h

module _ (os : Os) (inet : Inet) {J : JobHeap compare_events} where
  -- The loop over the events of epoll. None: `nextEvent` reads behind its array, or the fuel has run
  -- out.
  unfoldable pub poll_connections :
      ℕ → (now : ℤ) → PollHandler → Handler J → Option (PollHandler × Handler J)
  poll_connections zero now p h = none
  poll_connections (suc k) now p h = elim (next_event os p h.calls) [
    | no_more ↦ some (p, h)
    | overrun ↦ none
    | handed e q calls ↦
        poll_connections k now q
          (accept_new_connection os inet e.fd now (record h { calls = calls })).0
  ]

  -- The events of epoll, for which the thread waits until the next file event is due.
  unfoldable pub poll_round :
      ℕ → (next now : ℤ) → PollHandler → Handler J → Option (ℤ × PollHandler × Handler J)
  poll_round k next_event_time now p h = do
    let next_event_time =
        if ltb_ℤ next_event_time (pos 0) then next_time h.incoming_file_events else next_event_time
    let wait = next_event_time -ℤ now
    let timeout = if ltb_ℤ (pos 0) wait then to_int wait else pos 0
    let (p, calls) = wait_for_events os timeout p h.calls
    (p, h) ← poll_connections k now p (record h { calls = calls })
    some (next_event_time, p, h)

  -- One round of the outer loop; the clock is read as `later`, and `now` is what the round before
  -- has read. None: a part of it
  -- does not end within the fuel, or reads behind an array.
  unfoldable pub loop_round :
      ℕ → (next now later : ℤ) → PollHandler → Handler J → Option (ℤ × PollHandler × Handler J)
  loop_round k next_event_time now later p h = do
    (next_event_time, h) ← file_events os k next_event_time now h
    h ← check_deferred os k later (wake_file_worker h)
    poll_round k next_event_time later p h
