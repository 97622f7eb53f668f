-- ===== src/FileWorker/Tests/Starting.antt =====
-- A worker that starts with one connection, one that queues events, and the theorems at them.
use mimic_generator.Common.{List, ◌≡◌, ◌≢◌, refl, some, [], ◌∷◌, arith}
use mimic_generator.Common.Int
use mimic_generator.Common.Int.{pos, negsuc}
use mimic_generator.Common.Maps.{Text, insert}
use mimic_generator.Event.{Event}
use mimic_generator.EventHeap
use mimic_generator.EventHeap.{next_event, next_event_time}
use mimic_generator.EventHeap.ListHeap.{list_heap}
use mimic_generator.EventQueue.Spec.{push}
use mimic_generator.Connections
use mimic_generator.Connections.Dotted.{dotted_inet}
use mimic_generator.FileWorker.{trim, fields, record_of, load_lines, load_file}
use mimic_generator.FileWorker.Events
use mimic_generator.FileWorker.Events.{FileWorker, open_files, load_events_up_to}
use mimic_generator.FileWorker.Startup.{
  queue_events, startup_up_to, load_connections, load_connection, load_pair,
}
use mimic_generator.FileWorker.Queueing.{Queued, queue_events-Queued}
use mimic_generator.FileWorker.Endless.{load_events-endless}
use mimic_generator.FileWorker.Tests.{digits, worker, loaded_event}

-- Two events in the heap, of which one is past the time that has been loaded.
abbrev filled : FileWorker list_heap
filled = record worker {
  short_term_heap =
      list_heap.push
        (list_heap.push list_heap.empty (record loaded_event { ms_from_start = pos 9000 }))
        loaded_event;
  last_event_time = pos 6000;
}

queue_events-Queued_example :
    (w' : FileWorker list_heap) × (es : List Event) × (queue_events 3
        (next_event_time list_heap filled.short_term_heap)
        filled
      ≡ some w')
    × Queued filled w' es
queue_events-Queued_example = queue_events-Queued 3 filled (omega arith)

test_queued :
    queue_events 3 (pos 5000) filled
    ≡ some (record filled {
      short_term_heap =
          list_heap.push list_heap.empty (record loaded_event { ms_from_start = pos 9000 });
      out_events = loaded_event ∷ [];
      file_events_added_count = 1;
    })
unfolding queue_events next_event next_event_time push
test_queued = refl

-- A connection of the address "i", with the identifier 7.
abbrev pub connection_row : Text
connection_row =
    b'C' ∷ b',' ∷ b'2' ∷ b',' ∷ b'7' ∷ b',' ∷ b'i' ∷ b',' ∷ b'5' ∷ b',' ∷ b'-' ∷ b',' ∷ b'j' ∷ b','
    ∷ b'6' ∷ 10 ∷ []

-- Startup, where one event is loaded.
test_started :
    (w : FileWorker list_heap) × (startup_up_to digits dotted_inet 0 0 1 2
        (b'i' ∷ 10 ∷ [])
        connection_row
        worker
      ≡ some w)
unfolding startup_up_to load_file load_lines record_of fields trim load_connections load_connection
    load_pair load_events_up_to Events.next_rows Events.read_stream Events.load_more
    Events.load_rows Events.load_row Events.load_my_row Events.event_of Int.◌-ℤ◌ Int.◌+ℤ◌
    EventHeap.add_event insert Connections.connection_pair
test_started = (_, refl)

load_events-endless_example :
    load_events_up_to digits 1 9 (record worker { my_conn_ids = [] }) ≢ some worker
load_events-endless_example =
    load_events-endless digits 1 9 (record worker { my_conn_ids = [] }) (omega arith) refl worker
