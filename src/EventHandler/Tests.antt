-- ===== src/EventHandler/Tests.antt =====
-- An EventHandler with two connections over a simple operating system, and the theorems at it.
pub mod Rounds
use mimic_generator.Common.{
  ◌≡◌, ◌≢◌, refl, ap, ◌↔◌, Option, none, some, true, List, [], ◌∷◌, arith, inl, length, drop,
}
use mathlib.Core.List.{mem-cons, mem-cons_self, not-mem-nil}
use mathlib.Core.Logic.Or
use mimic_generator.Common.Int.{ℤ, pos, negsuc}
use mimic_generator.Common.Maps.{Map, Text, find, insert, int_eq, text_eq_instance}
use mimic_generator.Event.{Event, EventType, new_event, connect, send}
use mimic_generator.EventHeap.ListHeap.{list_heap}
use mimic_generator.EventNotifier.{event_notifier}
use mimic_generator.EventQueue.Spec
use mimic_generator.Common.Int
use mimic_generator.Common.Maps
use mimic_generator.Connections.Sockets
use mimic_generator.EventHandler.Dispatch
use mimic_generator.EventHandler.Loop
use mimic_generator.EventQueue.Spec.{next_time}
use mimic_generator.Os.{SockAddr, Call, Os}
use mimic_generator.Connections.{ConnectionPair}
use mimic_generator.Connections.Dotted.{dotted_inet, dotted_inet-IsDotted}
use mimic_generator.Connections.Identity.{IsInet}
use mimic_generator.EventHandler.{
  Handler, new_handler, startup, ready_for_event, new_connection_update, name_connections,
}
use mimic_generator.EventHandler.Dispatch.{dispatch, check_deferred, accept_new_connection}
use mimic_generator.EventHandler.Waiting.{
  IsReady, ready_for_event_iff, Counted, dispatch_all, dispatch_all-send_req,
}
use mimic_generator.EventHandler.Deferred.{IsStuck, check_deferred-loops}
use mimic_generator.EventHandler.Names.{
  Listed, accept_new_connection_complete, accept_new_connection-Listed,
}
use mimic_generator.EventHandler.Links.{IsLinked, dispatch-IsLinked, accept_new_connection-IsLinked}
use mimic_generator.EventHandler.Loop.{file_events, loop_round}
use mimic_generator.EventHandler.Progress.{Progress, Advances, loop_round-Progress}
use mimic_generator.EventHeap.{next_event}
use mimic_generator.PollHandler.{PollHandler, fill}
use mimic_generator.PollHandler
use mimic_generator.EventHandler.FileEvents.{due, handle_all, file_events-due}

abbrev pub a_client : SockAddr
a_client = record { family = 2; addr = 16777343; port = 16415 }

abbrev pub a_server : SockAddr
a_server = record { family = 2; addr = 33685514; port = 20480 }

abbrev a_pair : ConnectionPair
a_pair = record { src = a_client; dst = a_server }

-- Every call answers 5 and succeeds; the client on any socket is `a_client`.
abbrev pub mild : Os
mild = record {
  result = λ h c. elim c [ Call.socket ↦ pos 5 | Call.accept fd ↦ pos 5 | _ ↦ pos 0 ];
  errno = λ h c. pos 0;
  polled = λ h c i. record { events = 1; fd = pos 3 };
  filled = λ h c. elim c [ Call.accept fd ↦ a_client | _ ↦ a_server ];
}

abbrev conns : Map ℤ ConnectionPair
conns = (pos 7, a_pair) ∷ []

abbrev pub connects : Event
connects = record new_event { type = connect; conn_id = pos 7 }

abbrev pub sends : Event
sends = record new_event { type = send; conn_id = pos 7; value = pos 100; ms_from_start = pos 2 }

abbrev pub late_send : Event
late_send = record sends { ms_from_start = pos 20 }

abbrev pub H : Type 0
H = Handler list_heap

abbrev pub initial : H
unfolding new_handler
initial =
    new_handler list_heap true (event_notifier (pos 9) []) (connects ∷ sends ∷ late_send ∷ []) []
      conns

pub started : H
unfolding startup
started = startup dotted_inet initial

after_two : Option (ℤ × H)
unfolding file_events started
after_two = file_events mild 4 (pos 1) (pos 10) started

test_left : (elim after_two [ none ↦ [] | some r ↦ r.1.incoming_file_events ]) ≡ late_send ∷ []
unfolding after_two started new_handler startup file_events dispatch Spec.pop next_time
    Dispatch.dispatch_as Dispatch.connect_to find Loop.count_file_event Dispatch.connect_answer
    new_connection_update Dispatch.dispatch_send ready_for_event insert Int.to_int Int.◌+ℤ◌
    Maps.find_or
test_left = refl

-- A SEND that waits for a connection that has not been made.
stuck : H
unfolding started
stuck = record started { wait_heap = list_heap.push list_heap.empty sends }

type_set : IsSet EventType
type_set = hlevel

stuck-IsStuck : IsStuck stuck
unfolding stuck started startup new_handler find
stuck-IsStuck = record {
  sends = λ x m.
      Or.elim (type_set x.type send) (mem-cons.0 m) (λ e. ap (λ y. y.type) e)
        (λ n. absurd (not-mem-nil n));
  event = sends;
  held = mem-cons_self;
  unconnected = refl;
}

check_deferred-loops_example : check_deferred mild 9 (pos 10) stuck ≢ some started
check_deferred-loops_example = check_deferred-loops mild 9 (pos 10) stuck stuck-IsStuck started

pub a_client-IsInet : IsInet a_client
a_client-IsInet = record { family = refl; addr = omega arith; port = omega arith }

pub a_server-IsInet : IsInet a_server
a_server-IsInet = record { family = refl; addr = omega arith; port = omega arith }

started-names :
    started.str_to_conn_id ≡ name_connections dotted_inet started.conn_id_to_connection_map []
unfolding started startup new_handler
started-names = refl

started-Listed : Listed (pos 7) a_pair started.conn_id_to_connection_map
unfolding started startup new_handler
started-Listed = inl (refl, refl)

registers : (accept_new_connection mild dotted_inet (pos 3) (pos 10) started).1 ≡ none
unfolding Sockets.set_ipv4_tcp_non_blocking started
registers =
    accept_new_connection_complete mild dotted_inet (pos 3) (pos 10) started (pos 7) a_pair
      started-names (refl, refl) started-Listed refl refl

accept_new_connection-Listed_example :
    (c : ℤ) × (p : ConnectionPair) × Listed c p started.conn_id_to_connection_map
    × (p.src ≡ a_client)
    × (p.dst ≡ a_server)
    × (find c
          (accept_new_connection mild dotted_inet (pos 3) (pos 10) started).0.conn_to_sockfd_id_map
        ≡ some (pos 5))
unfolding started startup new_handler
accept_new_connection-Listed_example =
    accept_new_connection-Listed mild dotted_inet dotted_inet-IsDotted (pos 3) (pos 10) started
      ((a_client-IsInet, a_server-IsInet), tt) started-names a_client-IsInet a_server-IsInet
      registers

abbrev round_end : H
round_end = handle_all mild (pos 10) (due (pos 10) started.incoming_file_events) started

file_events-due_example :
    (file_events mild 4 (next_time started.incoming_file_events) (pos 10) started
      ≡ some (next_time round_end.incoming_file_events, round_end))
    × (round_end.incoming_file_events
        ≡ drop (length (due (pos 10) started.incoming_file_events)) started.incoming_file_events)
    × (file_events mild 4 (negsuc 0) (pos 10) started ≡ some (negsuc 0, started))
unfolding started startup new_handler
file_events-due_example = file_events-due mild 4 (pos 10) started (omega arith)
