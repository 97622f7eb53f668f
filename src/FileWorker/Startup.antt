-- ===== src/FileWorker/Startup.antt =====
-- src/fileWorker.cpp: `startup` and `loop` of the thread that reads files. A result of none is as in
-- Events.
use mimic_generator.Common.{
  ℕ, zero, suc, Bool, ◌&&◌, ◌||◌, Option, none, some, List, [], ◌∷◌, if◌then◌else◌, ltb, get_elem?,
  ◌>>=◌,
}
use mimic_generator.Common.Int.{ℤ, pos, negsuc, ◌-ℤ◌, ltb_ℤ, leb_ℤ, scale}
use mimic_generator.Common.Maps.{Text, insert, int_eq}
use mimic_generator.Event.{Event, new_event, connect, srv_start}
use mimic_generator.EventHeap.{compare_events, next_event, next_event_time}
use mimic_generator.EventHeap
use mimic_generator.EventHeap.Contract.{JobHeap}
use mimic_generator.EventHandler.Loop.{max_queued_file_events}
use mimic_generator.EventNotifier.{EventNotifier, read_signal}
use mimic_generator.EventQueue.Spec.{push}
use mimic_generator.Os.{Os, History}
use mimic_generator.Connections.{Inet, connection_pair}
use mimic_generator.PollHandler.{PollHandler, no_more, overrun, handed, wait_for_events}
use mimic_generator.PollHandler
use mimic_generator.FileWorker.{trim, Records, load_file}
use mimic_generator.FileWorker.Events.{
  Numbers, FileWorker, is_my_ip, load_events, load_events_up_to,
}

-- `insert` of a set: an item that stands in it twice is the same as one that stands in it once.
abbrev pub with_ips : Records → List Text → List Text
with_ips [] ips = ips
with_ips ([] ∷ rows) ips = with_ips rows ips
with_ips ((ip ∷ fields) ∷ rows) ips = with_ips rows (trim ip ∷ ips)

abbrev pub max_ℤ : ℤ → ℤ → ℤ
max_ℤ a b = if ltb_ℤ a b then b else a

-- The event that starts a connection: its client connects at the time `at`, in seconds, and its
-- server is started a second before.
abbrev pub start_event : (conn_id at : ℤ) → (is_client : Bool) → Event
start_event conn_id at is_client = record new_event {
  conn_id = conn_id;
  event_id = negsuc 0;
  value = negsuc 0;
  ms_from_last_event = pos 0;
  ms_from_start = if is_client then scale 1000 at else max_ℤ (scale 1000 at -ℤ pos 1000) (pos 0);
  type = if is_client then connect else srv_start;
}

module _ (numbers : Numbers) (inet : Inet) (stale_src stale_dst : ℕ)
    {J : JobHeap compare_events} where
  -- The rest of a row whose connection has an identifier.
  unfoldable pub load_pair : (conn_id : ℤ) → List Text → FileWorker J → Option (FileWorker J)
  load_pair conn_id row w = do
    src ← get_elem? row 3
    sport ← get_elem? row 4 >>= numbers.stoi
    dst ← get_elem? row 6
    dport ← get_elem? row 7 >>= numbers.stoi
    let cp = connection_pair inet stale_src stale_dst (trim src) sport (trim dst) dport
    if is_my_ip w (trim src) || is_my_ip w (trim dst)
        then (do
          at ← get_elem? row 1 >>= numbers.stol
          let e = start_event conn_id at (is_my_ip w (trim src))
          some (record w {
            my_conn_ids = conn_id ∷ w.my_conn_ids;
            conn_id_to_connection_pair_map = insert conn_id cp w.conn_id_to_connection_pair_map;
            short_term_heap = EventHeap.add_event J w.short_term_heap e;
          }))
        else some w

  -- A row whose identifier is no number is passed over.
  unfoldable pub load_connection : List Text → FileWorker J → Option (FileWorker J)
  load_connection row w = do
    field ← get_elem? row 2
    elim (numbers.stol field) [ none ↦ some w | some conn_id ↦ load_pair conn_id row w ]

  unfoldable pub load_connections : Records → FileWorker J → Option (FileWorker J)
  load_connections [] w = some w
  load_connections (row ∷ rows) w = do w ← load_connection row w; load_connections rows w

  -- `startup`, with the value of `eventsToGet` in its call of `loadEvents`. The texts of the two files
  -- are arguments.
  unfoldable pub startup_up_to :
      (events_to_get k : ℕ) → (ip_list connections : Text) → FileWorker J → Option (FileWorker J)
  startup_up_to events_to_get k ip_list connections w = do
    (ips, left) ← load_file ip_list 1 (negsuc 0)
    (conns, left) ← load_file connections 8 (negsuc 0)
    w ← load_connections conns (record w {
      my_ips = with_ips ips [];
      my_conn_ids = [];
      conn_id_to_connection_pair_map = [];
    })
    load_events_up_to numbers events_to_get k w

  unfoldable pub startup : ℕ → (ip_list connections : Text) → FileWorker J → Option (FileWorker J)
  startup k ip_list connections w = startup_up_to max_queued_file_events k ip_list connections w

module _ {J : JobHeap compare_events} where
  -- The inner loop of `loop`: events up to the time of the last that was loaded go to the queue.
  unfoldable pub queue_events : ℕ → (next_et : ℤ) → FileWorker J → Option (FileWorker J)
  queue_events zero next_et w = none
  queue_events (suc k) next_et w =
      let (heap, e) = next_event J w.short_term_heap in
      let count = suc w.file_events_added_count in
      let taken : Event → FileWorker J = λ e. record w {
        short_term_heap = heap;
        out_events = push w.out_events e;
        file_events_added_count = count;
      } in
      if leb_ℤ next_et w.last_event_time && ltb_ℤ (negsuc 0) next_et
      then elim e [
        | none ↦ none
        | some e ↦
            if ltb max_queued_file_events count
            then some (record (taken e) { file_events_added_count = 0 })
            else queue_events k (next_event_time J heap) (taken e)
      ]
      else some w

module _ (os : Os) where
  -- The events of epoll behind the first: for each the notifier is read.
  unfoldable pub read_signals :
      ℕ → EventNotifier → PollHandler → History → Option (PollHandler × History)
  read_signals zero n p h = none
  read_signals (suc k) n p h = elim (PollHandler.next_event os p h) [
    | no_more ↦ some (p, h)
    | overrun ↦ none
    | handed e q h ↦ read_signals k n q (read_signal os n h).1
  ]

module _ (os : Os) (numbers : Numbers) {J : JobHeap compare_events} where
  -- One round of `loop`, while the program runs on.
  unfoldable pub loop_round :
      ℕ
      → EventNotifier
      → PollHandler
      → History
      → FileWorker J
      → Option (PollHandler × History × FileWorker J)
  loop_round k n p h w = do
    w ← queue_events k (next_event_time J w.short_term_heap) w
    let (p, h) = wait_for_events os (negsuc 0) p h
    elim (PollHandler.next_event os p h) [
      | no_more ↦ some (p, h, w)
      | overrun ↦ none
      | handed e q h' ↦ do
        (p, h) ← read_signals os k n q h'
        w ← load_events numbers k w
        some (p, h, w)
    ]
