-- ===== src/Replay/Tests/Booting.antt =====
-- Two threads that start with one connection, and the theorem at them.
use mimic_generator.Common.{◌≡◌, refl, some, true, [], ◌∷◌, ◌++◌, arith}
use mimic_generator.Common.Int
use mimic_generator.Common.Int.{pos}
use mimic_generator.Common.Maps.{insert}
use mimic_generator.EventHeap
use mimic_generator.EventHeap.ListHeap.{list_heap}
use mimic_generator.EventNotifier.{event_notifier}
use mimic_generator.Connections
use mimic_generator.Connections.Dotted.{dotted_inet}
use mimic_generator.EventHandler.Tests.Rounds.{no_polls}
use mimic_generator.FileWorker.{
  trim, fields, record_of, load_lines, load_file, load_mmap_file, load_mmap_lines,
}
use mimic_generator.FileWorker.Events
use mimic_generator.FileWorker.Events.{new_file_worker, load_events_up_to}
use mimic_generator.FileWorker.Startup.{startup_up_to, load_connections, load_connection, load_pair}
use mimic_generator.FileWorker.Tests.{digits, event_row}
use mimic_generator.FileWorker.Tests.Starting.{connection_row}
use mimic_generator.Replay.{State}
use mimic_generator.Replay.Boot.{boot, Booted, boot-Booted}

started :
    (s : State list_heap) × (boot dotted_inet digits 0 0 1 2
        (b'i' ∷ 10 ∷ [])
        connection_row
        ((event_row b'1' ++ event_row b'2') ∷ [])
        true
        (event_notifier (pos 9) [])
        no_polls
        (pos 3)
      ≡ some s)
unfolding boot new_file_worker startup_up_to load_file load_lines record_of fields trim
    load_connections load_connection load_pair load_events_up_to Events.next_rows Events.read_mmap
    load_mmap_file load_mmap_lines Events.load_more Events.load_rows Events.load_row
    Events.load_my_row Events.event_of Int.◌-ℤ◌ Int.◌+ℤ◌ EventHeap.add_event insert
    Connections.connection_pair
started = (_, refl)

boot-Booted_example : Booted started.0
boot-Booted_example =
    boot-Booted dotted_inet digits 0 0 1 2 (b'i' ∷ 10 ∷ []) connection_row
      ((event_row b'1' ++ event_row b'2') ∷ []) true (event_notifier (pos 9) []) no_polls (pos 3)
      started.0 (omega arith) started.1
