-- ===== src/ServerWorker/Tests.antt =====
-- A ServerWorker with one connection over a simple operating system, and the theorems at it.
use mimic_generator.Common.{◌≡◌, refl, none, some, true, [], ◌∷◌, arith}
use mimic_generator.Common.Int.{ℤ, pos, negsuc}
use mimic_generator.Common.Int
use mimic_generator.Common.Maps.{Map, Text, find, insert, int_eq, text_eq_instance}
use mimic_generator.Common.Maps
use mimic_generator.Event.{Event, new_event, srv_start, accept}
use mimic_generator.EventQueue.Spec.{push}
use mimic_generator.EventQueue.Spec
use mimic_generator.Os.{SockAddr, Call, Os}
use mimic_generator.Connections
use mimic_generator.Connections.Decimal
use mimic_generator.ServerWorker
use mimic_generator.Connections.{ConnectionPair}
use mimic_generator.Connections.Dotted.{dotted_inet, dotted_inet-IsDotted}
use mimic_generator.Connections.Identity.{IsInet}
use mimic_generator.Connections.Sockets.{get_ipv4_tcp_sock, set_ipv4_tcp_non_blocking}
use mimic_generator.ServerWorker.{
  ServerWorker, startup, start_server, start_once, start_for, handle_srv_start, handle_accept,
  loop_round, in_events_loop, handle_job, handle_as, accepted_event,
}
use mathlib.Core.List.{Mem}
use mimic_generator.ServerWorker.{close_all}
use mimic_generator.ServerWorker.Closing.{IsCounted, loop_round-closes}
use mimic_generator.ServerWorker.Accepting.{Answers, handle_accept-Answers}

abbrev a_client : SockAddr
a_client = record { family = 2; addr = 16777343; port = 16415 }

abbrev a_server : SockAddr
a_server = record { family = 2; addr = 33685514; port = 20480 }

-- Every call succeeds; the client on any socket is `a_client`.
abbrev mild : Os
mild = record {
  result = λ h c. elim c [ Call.socket ↦ pos 5 | Call.accept fd ↦ pos 6 | _ ↦ pos 0 ];
  errno = λ h c. pos 0;
  filled = λ h c. elim c [ Call.accept fd ↦ a_client | _ ↦ a_server ];
  polled = λ h c i. record { events = 0; fd = pos 0 };
}

abbrev starts : Event
starts = record new_event { type = srv_start; conn_id = pos 7 }

abbrev accepts : Event
accepts = record new_event { type = accept; sockfd = pos 5 }

abbrev conns : Map ℤ ConnectionPair
conns = (pos 7, record { src = a_client; dst = a_server }) ∷ []

abbrev initial : ServerWorker
initial = record {
  in_events = starts ∷ accepts ∷ [];
  out_events = [];
  str_to_conn_id = [];
  sockfd_to_conn_count = [];
  srv_string_to_sockfd = [];
  conn_id_to_connection_map = [];
  efd = negsuc 0;
  calls = [];
}

started : ServerWorker
unfolding startup
started = (startup mild dotted_inet conns initial).0

test_started : (handle_srv_start mild dotted_inet starts started).1 ≡ true
unfolding handle_srv_start start_for start_once start_server get_ipv4_tcp_sock
    set_ipv4_tcp_non_blocking started startup find
test_started = refl

a_client-IsInet : IsInet a_client
a_client-IsInet = record { family = refl; addr = omega arith; port = omega arith }

a_server-IsInet : IsInet a_server
a_server-IsInet = record { family = refl; addr = omega arith; port = omega arith }

handle_accept-Answers_example :
    Answers mild dotted_inet dotted_inet-IsDotted accepts
      (pos 10)
      started
      (handle_accept mild dotted_inet accepts (pos 10) started)
unfolding started startup
handle_accept-Answers_example =
    handle_accept-Answers mild dotted_inet dotted_inet-IsDotted accepts (pos 10) started
      ((a_client-IsInet, a_server-IsInet), tt) refl a_client-IsInet a_server-IsInet

-- The server is started, and the client on it is reported.
test_round :
    (elim (loop_round mild dotted_inet 3 (pos 10) started) [ none ↦ [] | some r ↦ r.1.out_events ])
    ≡ accepted_event (pos 7) (pos 10) (pos 6) ∷ []
unfolding loop_round in_events_loop Spec.next_time started handle_job Spec.pop handle_as
    handle_srv_start start_for find start_once start_server get_ipv4_tcp_sock handle_accept
    set_ipv4_tcp_non_blocking Connections.get_conn_string ServerWorker.accept_named insert Int.◌+ℤ◌
    Maps.find_or Decimal.decimal Decimal.digits_before Connections.get_ip_port_string push startup
test_round = refl

-- The state when the loop ends after that round.
ended : (r : ℤ × ServerWorker) × (loop_round mild dotted_inet 3 (pos 10) started ≡ some r)
unfolding loop_round in_events_loop Spec.next_time started handle_job Spec.pop handle_as
    handle_srv_start start_for find start_once start_server get_ipv4_tcp_sock handle_accept
    set_ipv4_tcp_non_blocking Connections.get_conn_string ServerWorker.accept_named insert Int.◌+ℤ◌
    Maps.find_or Decimal.decimal Decimal.digits_before Connections.get_ip_port_string push startup
ended = (_, refl)

started-IsCounted : IsCounted started
unfolding started startup find
started-IsCounted name fd e = absurd (cc)

loop_round-closes_example :
    IsCounted ended.0.1
    × ((name : Text) (fd : ℤ)
        → find name ended.0.1.srv_string_to_sockfd ≡ some fd
        → Mem
            (Call.close fd)
            (close_all mild dotted_inet ended.0.1.sockfd_to_conn_count ended.0.1.calls))
loop_round-closes_example =
    loop_round-closes mild dotted_inet 3 (pos 10) started ended.0.0 ended.0.1 ended.1
      started-IsCounted
