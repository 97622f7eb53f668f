-- ===== src/FileWorker/Events.antt =====
-- src/fileWorker.cpp: the events that the files hold, and the thread that queues them. What
-- std::stol, std::stoi and std::stod make of a text is a parameter, and so are the files' texts. A
-- result of none is an exception that nothing catches, an index out of range, or that the fuel has
-- run out.
use mimic_generator.Common.{
  ℕ, zero, suc, Bool, true, false, ◌||◌, Option, none, some, List, [], ◌∷◌, if◌then◌else◌, ◌==◌,
  ltb, leb, length, get_elem?, ◌>>=◌,
}
use mimic_generator.Common.Int.{ℤ, pos, ◌+ℤ◌, ◌-ℤ◌, ◌==ℤ◌, scale}
use mimic_generator.Common.Maps.{Map, Text, text_eq, int_eq}
use mimic_generator.Event.{Event, new_event, send, recv}
use mimic_generator.EventHeap.{compare_events, next_event, next_event_time}
use mimic_generator.EventHeap
use mimic_generator.EventHeap.Contract.{JobHeap}
use mimic_generator.EventHandler.Loop.{max_queued_file_events}
use mimic_generator.EventQueue.Spec.{Fifo}
use mimic_generator.Connections.{ConnectionPair}
use mimic_generator.FileWorker.{Records, load_file, load_mmap_file}

-- std::stol and std::stoi; and std::stod times 1000 as a `long int`, with a `long int` added before
-- the conversion. None is an exception.
pub record Numbers : Type 0 where
  pub stol : Text → Option ℤ
  pub stoi : Text → Option ℤ
  pub milliseconds : Text → (added : ℤ) → Option ℤ

-- An input stream: its file, and what is left of it.
pub record Stream : Type 0 where
  pub file : Text
  pub left : Text

pub record FileWorker (J : JobHeap compare_events) : Type 0 where
  pub file_events_added_count : ℕ
  pub use_mmap : Bool
  pub out_events : Fifo
  pub my_ips : List Text
  pub my_conn_ids : List ℤ
  pub short_term_heap : J.Heap
  pub events_if_streams : List Stream
  pub event_if_streams_itr : ℕ
  pub mmaped_files : List Text
  pub mmapped_files_itr : ℕ
  pub looped_count : ℕ
  pub loop_duration : ℤ
  pub loop_event_count : ℕ
  pub last_event_time : ℤ
  pub conn_id_to_connection_pair_map : Map ℤ ConnectionPair

abbrev pub open_file : Text → Stream
open_file text = record { file = text; left = text }

abbrev pub open_files : List Text → List Stream
open_files [] = []
open_files (t ∷ ts) = open_file t ∷ open_files ts

-- The constructor, where every file can be opened and mapped. The watch on the notifier is in
-- PollHandler.
unfoldable pub new_file_worker :
    (J : JobHeap compare_events) → (out : Fifo) (files : List Text) (use_mmap : Bool) → FileWorker J
new_file_worker J out files use_mmap = record {
  file_events_added_count = 0;
  use_mmap = use_mmap;
  out_events = out;
  my_ips = [];
  my_conn_ids = [];
  short_term_heap = J.empty;
  events_if_streams = open_files files;
  event_if_streams_itr = 0;
  mmaped_files = if use_mmap then files else [];
  mmapped_files_itr = 0;
  looped_count = 0;
  loop_duration = pos 0;
  loop_event_count = 0;
  last_event_time = pos 0;
  conn_id_to_connection_pair_map = [];
}

abbrev pub is_text_in : Text → List Text → Bool
is_text_in t [] = false
is_text_in t (u ∷ us) = if text_eq u t then true else is_text_in t us

abbrev pub is_id_in : ℤ → List ℤ → Bool
is_id_in c [] = false
is_id_in c (d ∷ ds) = if d ==ℤ c then true else is_id_in c ds

-- The stream at a place has been read up to `left`.
abbrev pub set_left : ℕ → Text → List Stream → List Stream
set_left i left [] = []
set_left zero left (s ∷ ss) = record s { left = left } ∷ ss
set_left (suc i) left (s ∷ ss) = s ∷ set_left i left ss

-- `clear` and `seekg` to the beginning, for every stream.
abbrev pub rewind : List Stream → List Stream
rewind [] = []
rewind (s ∷ ss) = open_file s.file ∷ rewind ss

abbrev pub send_text : Text
send_text = b'S' ∷ b'E' ∷ b'N' ∷ b'D' ∷ []

module _ {J : JobHeap compare_events} where
  abbrev pub is_my_ip : FileWorker J → Text → Bool
  is_my_ip w ip = is_text_in ip w.my_ips

  abbrev pub is_my_conn_id : FileWorker J → ℤ → Bool
  is_my_conn_id w conn_id = is_id_in conn_id w.my_conn_ids

  unfoldable pub read_mmap : (num_records : ℤ) → FileWorker J → Option (Records × FileWorker J)
  read_mmap num_records w = do
    mmap_data ← get_elem? w.mmaped_files w.mmapped_files_itr
    rows ← load_mmap_file mmap_data 8 num_records
    some (rows, w)

  unfoldable pub read_stream : (num_records : ℤ) → FileWorker J → Option (Records × FileWorker J)
  read_stream num_records w = do
    infile ← get_elem? w.events_if_streams w.event_if_streams_itr
    (rows, left) ← load_file infile.left 8 num_records
    some (
      rows,
      record w { events_if_streams = set_left w.event_if_streams_itr left w.events_if_streams },
    )

  -- The next rows of the current file, and the worker when they have been read.
  unfoldable pub next_rows : (num_records : ℤ) → FileWorker J → Option (Records × FileWorker J)
  next_rows num_records w =
      if w.use_mmap then read_mmap num_records w else read_stream num_records w

  -- The end of the last file: from the first file on again.
  abbrev pub restart : FileWorker J → FileWorker J
  restart w = record w {
    events_if_streams = rewind w.events_if_streams;
    event_if_streams_itr = 0;
    mmapped_files_itr = 0;
    loop_duration = if w.looped_count == 0 then w.last_event_time else w.loop_duration;
    looped_count = suc w.looped_count;
  }

  -- The end of a file: the next one.
  unfoldable pub next_file : FileWorker J → FileWorker J
  next_file w =
      let w = record w {
        event_if_streams_itr = suc w.event_if_streams_itr;
        mmapped_files_itr = suc w.mmapped_files_itr;
      } in
      if leb (length w.events_if_streams) w.event_if_streams_itr
        || leb (length w.mmaped_files) w.mmapped_files_itr
      then restart w
      else w

module _ {J : JobHeap compare_events} where
  -- The event is put into the heap, and counted in the first pass over the files.
  abbrev pub add_row_event : Event → FileWorker J → FileWorker J
  add_row_event e w = record w {
    short_term_heap = EventHeap.add_event J w.short_term_heap e;
    loop_event_count = if w.looped_count == 0 then suc w.loop_event_count else w.loop_event_count;
  }

module _ (numbers : Numbers) {J : JobHeap compare_events} where
  -- The event of a row for one of the connections.
  unfoldable pub event_of : List Text → FileWorker J → Option Event
  event_of row w = do
    conn_id ← get_elem? row 1 >>= numbers.stol
    event_id ← get_elem? row 2 >>= numbers.stol
    value ← get_elem? row 5 >>= numbers.stoi
    last ← get_elem? row 6 >>= (λ t. numbers.milliseconds t (pos 0))
    start ← get_elem? row 7 >>= (λ t. numbers.milliseconds t (pos 0))
    ip ← get_elem? row 3
    some (record new_event {
      conn_id = conn_id;
      event_id = event_id;
      value = value;
      ms_from_last_event = last;
      ms_from_start = start +ℤ scale w.looped_count w.loop_duration;
      type = if text_eq ip send_text then send else recv;
    })

  -- A row for one of the connections, with the number of events produced.
  unfoldable pub load_my_row : List Text → ℕ → FileWorker J → Option (ℕ × FileWorker J)
  load_my_row row produced w = do
    e ← event_of row w
    ip ← get_elem? row 3
    some (if is_my_ip w ip then (suc produced, add_row_event e w) else (produced, w))

  unfoldable pub load_row : List Text → ℕ → FileWorker J → Option (ℕ × FileWorker J)
  load_row row produced w = do
    conn_id ← get_elem? row 1 >>= numbers.stol
    (produced, w) ←
        (if is_my_conn_id w conn_id then load_my_row row produced w else some (produced, w))
    time ← get_elem? row 7 >>= (λ t. numbers.milliseconds t (scale w.looped_count w.loop_duration))
    some (produced, record w { last_event_time = time })

  unfoldable pub load_rows : Records → ℕ → FileWorker J → Option (ℕ × FileWorker J)
  load_rows [] produced w = some (produced, w)
  load_rows (row ∷ rows) produced w = do
    (produced, w) ← load_row row produced w
    load_rows rows produced w

  -- The loop of `loadEvents`.
  unfoldable pub load_more :
      ℕ → (to_get : ℕ) → Records → (produced : ℕ) → FileWorker J → Option (ℕ × FileWorker J)
  load_more zero to_get rows produced w = none
  load_more (suc k) to_get rows produced w =
      let w' = if length rows == 0 then next_file w else w in
      if ltb produced to_get
      then (do
        (produced, w) ← load_rows rows produced w'
        (rows, w) ← next_rows (pos to_get -ℤ pos produced) w
        load_more k to_get rows produced w)
      else some (produced, w)

  -- `loadEvents`, with the value of `eventsToGet`.
  unfoldable pub load_events_up_to : (events_to_get k : ℕ) → FileWorker J → Option (FileWorker J)
  load_events_up_to events_to_get k w = do
    (rows, w) ← next_rows (pos events_to_get) w
    (produced, w) ← load_more k events_to_get rows 0 w
    some w

  unfoldable pub load_events : ℕ → FileWorker J → Option (FileWorker J)
  load_events k w = load_events_up_to max_queued_file_events k w
