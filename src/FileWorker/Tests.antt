-- ===== src/FileWorker/Tests.antt =====
-- Small files, read in both ways, and the theorems at them.
pub mod Starting
use mimic_generator.Common.{
  List, ℕ, ◌-◌, ◌*◌, ◌++◌, false, none, ◌≡◌, refl, some, [], ◌∷◌, map, arith,
}
use mimic_generator.Common.Int.{pos, negsuc, ◌+ℤ◌}
use mimic_generator.Common.Maps.{Text}
use mimic_generator.FileWorker.{
  trim, fields, record_of, Records, load_lines, load_file, load_mmap_lines, load_mmap_file,
}
use mathlib.Core.List.{not-mem-nil}
use mimic_generator.Event.{Event, new_event, recv}
use mimic_generator.EventHeap.ListHeap.{list_heap}
use mimic_generator.FileWorker.Events
use mimic_generator.Common.Int
use mimic_generator.EventHeap
use mimic_generator.FileWorker.Events.{Numbers, FileWorker, open_files, load_events_up_to}
use mimic_generator.FileWorker.Loading.{AtEnd, load_events-AtEnd}
use mimic_generator.FileWorker.Types.{NoSend, load_events-NoSend}
use mimic_generator.FileWorker.Fields.{join, record_of-join}
use mimic_generator.FileWorker.Records.{load_file-load_mmap_file}
use mimic_generator.EventHeap.{next_event, next_event_time}
use mimic_generator.EventQueue.Spec.{push}
use mimic_generator.FileWorker.Startup.{queue_events}
use mimic_generator.FileWorker.Queueing.{Queued, queue_events-Queued}
use mimic_generator.FileWorker.Trim.{trim-append}
use mimic_generator.FileWorker.Unended.{load_mmap_file-append}

-- The lines "a, b" and "c,d", with the end of the last one and without it.
abbrev lines : Text
lines = b'a' ∷ b',' ∷ b' ' ∷ b'b' ∷ 10 ∷ b'c' ∷ b',' ∷ b'd' ∷ 10 ∷ []

abbrev unended : Text
unended = b'a' ∷ b',' ∷ b' ' ∷ b'b' ∷ 10 ∷ b'c' ∷ b',' ∷ b'd' ∷ []

abbrev two_rows : Records
two_rows = ((b'a' ∷ []) ∷ (b'b' ∷ []) ∷ []) ∷ ((b'c' ∷ []) ∷ (b'd' ∷ []) ∷ []) ∷ []

abbrev first_row : Records
first_row = ((b'a' ∷ []) ∷ (b'b' ∷ []) ∷ []) ∷ []

test_file : load_file unended 2 (negsuc 0) ≡ some (two_rows, [])
unfolding load_file load_lines record_of fields trim
test_file = refl

-- The last line has no end: only `loadFile` reads it.
test_mmap : load_mmap_file unended 2 (negsuc 0) ≡ some first_row
unfolding load_mmap_file load_mmap_lines record_of fields trim
test_mmap = refl

-- One record is asked for: what follows it is left in the stream.
test_limit : load_file unended 2 (pos 1) ≡ some (first_row, b'c' ∷ b',' ∷ b'd' ∷ [])
unfolding load_file load_lines record_of fields trim
test_limit = refl

load_file-load_mmap_file_example :
    (kept : Records) × (left : Text) × (load_file lines 2 (negsuc 0) ≡ some (kept, left))
    × (load_mmap_file lines 2 (negsuc 0) ≡ some kept)
load_file-load_mmap_file_example = load_file-load_mmap_file 2 (negsuc 0) lines refl

-- A digit, as a number.
abbrev pub digits : Numbers
digits = record {
  stol = λ t. elim t [ [] ↦ none | c ∷ s ↦ some (pos (c - 48)) ];
  stoi = λ t. elim t [ [] ↦ none | c ∷ s ↦ some (pos (c - 48)) ];
  milliseconds = λ t added. elim t [ [] ↦ none | c ∷ s ↦ some (pos (1000 * (c - 48)) +ℤ added) ];
}

-- The event `id` of connection 7, at the address "i".
abbrev pub event_row : (id : ℕ) → Text
event_row id =
    b'0' ∷ b',' ∷ b'7' ∷ b',' ∷ id ∷ b',' ∷ b'i' ∷ b',' ∷ b'x' ∷ b',' ∷ b'9' ∷ b',' ∷ b'0' ∷ b','
    ∷ b'5' ∷ 10 ∷ []

-- Three events in a stream.
abbrev pub worker : FileWorker list_heap
worker = record {
  file_events_added_count = 0;
  use_mmap = false;
  out_events = [];
  my_ips = (b'i' ∷ []) ∷ [];
  my_conn_ids = pos 7 ∷ [];
  short_term_heap = list_heap.empty;
  events_if_streams = open_files ((event_row b'1' ++ event_row b'2' ++ event_row b'3') ∷ []);
  event_if_streams_itr = 0;
  mmaped_files = [];
  mmapped_files_itr = 0;
  looped_count = 0;
  loop_duration = pos 0;
  loop_event_count = 0;
  last_event_time = pos 0;
  conn_id_to_connection_pair_map = [];
}

abbrev pub loaded_event : Event
loaded_event = record new_event {
  conn_id = pos 7;
  event_id = pos 1;
  value = pos 9;
  ms_from_last_event = pos 0;
  ms_from_start = pos 5000;
  type = recv;
}

-- One event is loaded, and the other two are read and dropped.
abbrev pub loaded : FileWorker list_heap
loaded = record worker {
  short_term_heap = list_heap.push list_heap.empty loaded_event;
  events_if_streams =
      record { file = event_row b'1' ++ event_row b'2' ++ event_row b'3'; left = [] } ∷ [];
  loop_event_count = 1;
  last_event_time = pos 5000;
}

test_loaded : load_events_up_to digits 1 2 worker ≡ some loaded
unfolding load_events_up_to Events.next_rows Events.read_stream load_file load_lines record_of
    fields Events.load_more Events.load_rows Events.load_row trim Events.load_my_row Events.event_of
    Int.◌-ℤ◌ EventHeap.add_event ◌+ℤ◌
test_loaded = refl
