-- ===== src/EventHandler.antt =====
-- src/eventHandler.cpp and include/eventHandler.h, class EventHandler: it takes events from the file
-- queue, connects, accepts, and passes what is to be sent to the send queue. Its queues are the
-- abstract ones of EventQueue; the clock, the heap, the system calls and the address texts are
-- parameters.
pub mod Deferred
pub mod Dispatch
pub mod Incoming
pub mod Links
pub mod Earlier
pub mod FileEvents
pub mod Loop
pub mod Names
pub mod Peer
pub mod Posix
pub mod Progress
pub mod Quiet
pub mod Rounds
pub mod Wired
pub mod Waiting
pub mod Tests
use mimic_generator.Common.{ℕ, Bool, true, false, Option, none, some, List, [], ◌∷◌, if◌then◌else◌}
use mimic_generator.Common.Int.{ℤ, pos, negsuc, ◌-ℤ◌, ltb_ℤ}
use mimic_generator.Common.Maps.{Map, Text, find, insert, int_eq, text_eq_instance}
use mimic_generator.Event.{Event}
use mimic_generator.EventHeap.{compare_events}
use mimic_generator.EventHeap.Contract.{JobHeap}
use mimic_generator.EventNotifier.{EventNotifier}
use mimic_generator.EventQueue.Spec.{Fifo}
use mimic_generator.Os.{History}
use mimic_generator.Connections.{Inet, ConnectionPair, get_conn_string}

-- `calls` are the system calls made so far, and `load_more` is the flag loadMoreFileEvents that the
-- file thread waits for.
pub record Handler (J : JobHeap compare_events) : Type 0 where
  pub file_events_handled_count : ℕ
  pub last_event_count_when_requesting_for_more : ℕ
  pub load_more : Bool
  pub request_more_file_events : EventNotifier
  pub incoming_file_events : Fifo
  pub send_req : Fifo
  pub conn_id_to_connection_map : Map ℤ ConnectionPair
  pub str_to_conn_id : Map Text ℤ
  pub sockfd_to_conn_id_map : Map ℤ ℤ
  pub conn_to_sockfd_id_map : Map ℤ ℤ
  pub conn_to_waiting_to_recv : Map ℤ ℤ
  pub conn_to_waiting_to_send : Map ℤ ℤ
  pub conn_to_last_completed_event : Map ℤ ℤ
  pub conn_to_event_queue : Map ℤ Fifo
  pub wait_heap : J.Heap
  pub calls : History

-- The constructor, with no system call made yet. That of its PollHandler is in PollHandler.
unfoldable pub new_handler :
    (J : JobHeap compare_events)
    → (load_more : Bool) (notifier : EventNotifier) (fe send : Fifo) → Map ℤ ConnectionPair
    → Handler J
new_handler J load_more notifier fe send conns = record {
  file_events_handled_count = 0;
  last_event_count_when_requesting_for_more = 0;
  load_more = load_more;
  request_more_file_events = notifier;
  incoming_file_events = fe;
  send_req = send;
  conn_id_to_connection_map = conns;
  str_to_conn_id = [];
  sockfd_to_conn_id_map = [];
  conn_to_sockfd_id_map = [];
  conn_to_waiting_to_recv = [];
  conn_to_waiting_to_send = [];
  conn_to_last_completed_event = [];
  conn_to_event_queue = [];
  wait_heap = J.empty;
  calls = [];
}

-- An entry that `find` finds and that is positive.
abbrev pub is_waiting : Option ℤ → Bool
is_waiting none = false
is_waiting (some n) = ltb_ℤ (pos 0) n

-- The time since the last completed event is less than `delta`.
abbrev pub is_early : (delta now : ℤ) → Option ℤ → Bool
is_early delta now none = false
is_early delta now (some t) = ltb_ℤ (now -ℤ t) delta

-- The tests of `readyForEvent` on what it finds in the maps.
abbrev pub is_ready : (sockfd to_recv to_send last : Option ℤ) → (delta now : ℤ) → Bool
is_ready none to_recv to_send last delta now = false
is_ready (some fd) to_recv to_send last delta now =
    if is_waiting to_recv
    then false
    else if is_waiting to_send
    then false
    else if is_early delta now last
    then false
    else true

module _ {J : JobHeap compare_events} where
  unfoldable pub ready_for_event : Handler J → (conn_id delta now : ℤ) → Bool
  ready_for_event h conn_id delta now =
      is_ready (find conn_id h.conn_to_sockfd_id_map) (find conn_id h.conn_to_waiting_to_recv)
        (find conn_id h.conn_to_waiting_to_send) (find conn_id h.conn_to_last_completed_event) delta
        now

  unfoldable pub new_connection_update : (sockfd conn_id now : ℤ) → Handler J → Handler J
  new_connection_update sockfd conn_id now h = record h {
    sockfd_to_conn_id_map = insert sockfd conn_id h.sockfd_to_conn_id_map;
    conn_to_sockfd_id_map = insert conn_id sockfd h.conn_to_sockfd_id_map;
    conn_to_waiting_to_recv = insert conn_id (pos 0) h.conn_to_waiting_to_recv;
    conn_to_waiting_to_send = insert conn_id (pos 0) h.conn_to_waiting_to_send;
    conn_to_last_completed_event = insert conn_id now h.conn_to_last_completed_event;
    conn_to_event_queue = insert conn_id [] h.conn_to_event_queue;
  }

-- The loop of `startup` over the connections.
abbrev pub name_connections : Inet → Map ℤ ConnectionPair → Map Text ℤ → Map Text ℤ
name_connections inet [] names = names
name_connections inet ((conn_id, pair) ∷ conns) names =
    let (constring, success) = get_conn_string inet pair.src pair.dst in
    name_connections inet conns (if success then insert constring conn_id names else names)

module _ (inet : Inet) {J : JobHeap compare_events} where
  unfoldable pub startup : Handler J → Handler J
  startup h = record h {
    str_to_conn_id = name_connections inet h.conn_id_to_connection_map h.str_to_conn_id;
  }
