-- ===== src/ServerWorker.antt =====
-- src/serverWorker.cpp and include/serverWorker.h: the thread that starts servers and accepts
-- clients. Its queues are the abstract ones of EventQueue; its heap of deferred jobs is not used by
-- the code.
pub mod Accepting
pub mod Closing
pub mod Starting
mod Tests
use mimic_generator.Common.{
  ℕ, zero, suc, Bool, true, false, Option, none, some, List, [], ◌∷◌, if◌then◌else◌, ◌&&◌,
}
use mimic_generator.Common.Int.{ℤ, pos, negsuc, ◌+ℤ◌, ltb_ℤ, leb_ℤ, ◌==ℤ◌}
use mimic_generator.Common.Maps.{Map, Text, find, insert, find_or, int_eq, text_eq_instance}
use mimic_generator.Event.{Event, EventType, new_event, accept, accepted, close, srv_start, srv_end}
use mimic_generator.EventQueue.Spec.{Fifo, push, pop, next_time}
use mimic_generator.Os.{Os, Call, History, SockAddr, perform}
use mimic_generator.Connections.{Inet, ConnectionPair, get_conn_string, get_ip_port_string}
use mimic_generator.Connections.Sockets.{get_ipv4_tcp_sock, set_ipv4_tcp_non_blocking}
use mimic_generator.EventHandler.{name_connections}

abbrev pub max_backlog_per_srv : ℤ
max_backlog_per_srv = pos 5

pub record ServerWorker : Type 0 where
  pub in_events : Fifo
  pub out_events : Fifo
  pub str_to_conn_id : Map Text ℤ
  pub sockfd_to_conn_count : Map ℤ ℤ
  pub srv_string_to_sockfd : Map Text ℤ
  pub conn_id_to_connection_map : Map ℤ ConnectionPair
  pub efd : ℤ
  pub calls : History

-- EPOLLIN | EPOLLPRI | EPOLLERR | EPOLLHUP
abbrev pub server_mask : ℕ
server_mask = 27

-- The event that tells of an accepted client.
abbrev pub accepted_event : (conn_id now sockfd : ℤ) → Event
accepted_event conn_id now sockfd = record new_event {
  type = accepted;
  conn_id = conn_id;
  ms_from_start = now;
  sockfd = sockfd;
}

-- The end of `handleAccept`, by what `find` finds.
unfoldable pub accept_named :
    Option ℤ → Event → (new_sockfd now : ℤ) → ServerWorker → ServerWorker × Bool
accept_named none job new_sockfd now w = (w, false)
accept_named (some conn_id) job new_sockfd now w =
    let count = find_or (pos 0) job.sockfd w.sockfd_to_conn_count in
    (
      record w {
        out_events = push w.out_events (accepted_event conn_id now new_sockfd);
        sockfd_to_conn_count = insert job.sockfd (count +ℤ pos 1) w.sockfd_to_conn_count;
      },
      true,
    )

module _ (os : Os) (inet : Inet) where
  unfoldable pub startup : Map ℤ ConnectionPair → ServerWorker → ServerWorker × Bool
  startup conns w =
      let (efd, calls) = perform os Call.epoll_create w.calls in
      let w = record w { conn_id_to_connection_map = conns; efd = efd; calls = calls } in
      if efd ==ℤ negsuc 0
      then (w, false)
      else (record w { str_to_conn_id = name_connections inet conns w.str_to_conn_id }, true)

  unfoldable pub handle_accept : Event → (now : ℤ) → ServerWorker → ServerWorker × Bool
  handle_accept job now w =
      let in_addr = os.filled w.calls (Call.accept job.sockfd) in
      let (new_sockfd, calls) = perform os (Call.accept job.sockfd) w.calls in
      let (status, calls) = set_ipv4_tcp_non_blocking os new_sockfd calls in
      if ltb_ℤ status (pos 0)
      then (record w { calls = calls }, false)
      else (let sa_srv = os.filled calls (Call.getsockname job.sockfd) in
          let (named, calls) = perform os (Call.getsockname job.sockfd) calls in
          let w = record w { calls = calls } in
          let (conn_string, success) = get_conn_string inet in_addr sa_srv in
          if named ==ℤ negsuc 0
          then (w, false)
          else if success
          then accept_named (find conn_string w.str_to_conn_id) job new_sockfd now w
          else (w, false))

  -- The server's socket is bound, listens and is watched.
  unfoldable pub start_server : Text → SockAddr → ServerWorker → ServerWorker × Bool
  start_server serv_string dst w =
      let (sockfd, calls) = get_ipv4_tcp_sock os (some dst) w.calls in
      if sockfd ==ℤ negsuc 0
      then (record w { calls = calls }, false)
      else (let (listens, calls) = perform os (Call.listen sockfd max_backlog_per_srv) calls in
          if listens ==ℤ negsuc 0
          then (record w { calls = calls }, false)
          else (let (stat, calls) = perform os (Call.epoll_add w.efd sockfd server_mask) calls in
              if stat ==ℤ pos 0
              then (
                record w {
                  srv_string_to_sockfd = insert serv_string sockfd w.srv_string_to_sockfd;
                  sockfd_to_conn_count = insert sockfd (pos 0) w.sockfd_to_conn_count;
                  calls = calls;
                },
                true,
              )
              else (record w { calls = calls }, false)))

  -- By what `find` finds for the server's address.
  unfoldable pub start_once : Option ℤ → Text → SockAddr → ServerWorker → ServerWorker × Bool
  start_once (some sockfd) serv_string dst w = (w, true)
  start_once none serv_string dst w = start_server serv_string dst w

  -- By what `find` finds for the connection.
  unfoldable pub start_for : Option ConnectionPair → ServerWorker → ServerWorker × Bool
  start_for none w = (w, false)
  start_for (some pair) w =
      let serv_string = get_ip_port_string inet pair.dst in
      start_once (find serv_string w.srv_string_to_sockfd) serv_string pair.dst w

  unfoldable pub handle_srv_start : Event → ServerWorker → ServerWorker × Bool
  handle_srv_start job w = start_for (find job.conn_id w.conn_id_to_connection_map) w

  -- The function has no statement: the result is none.
  unfoldable pub handle_srv_stop : Event → ServerWorker → ServerWorker × Option Bool
  handle_srv_stop job w = (w, none)

  -- A result of a handler that returns.
  abbrev pub returns : ServerWorker × Bool → ServerWorker × Option Bool
  returns (w, b) = (w, some b)

  -- The cases of `handleJob`.
  unfoldable pub handle_as :
      EventType → Event → (now : ℤ) → ServerWorker → ServerWorker × Option Bool
  handle_as accept job now w = returns (handle_accept job now w)
  handle_as srv_start job now w = returns (handle_srv_start job w)
  handle_as srv_end job now w = handle_srv_stop job w
  handle_as close job now w = handle_srv_stop job w
  handle_as _ job now w = (w, some true)

  -- None is the null pointer.
  unfoldable pub handle_job : Option Event → (now : ℤ) → ServerWorker → ServerWorker × Option Bool
  handle_job none now w = (w, some false)
  handle_job (some job) now w = handle_as job.type job now w

  -- `getEvent` leaves the job alone where it fails, and its result is not used.
  abbrev pub job_after : (old : Option Event) → Option Event → Option Event
  job_after old none = old
  job_after old (some e) = some e

  -- The inner loop over the events that are due. None: the fuel has run out.
  unfoldable pub in_events_loop :
      ℕ → (next now : ℤ) → Option Event → ServerWorker → Option (ℤ × ServerWorker)
  in_events_loop zero next now job w = none
  in_events_loop (suc k) next now job w =
      let (queue, e) = pop w.in_events in
      let job' = job_after job e in
      let w' = (handle_job job' now (record w { in_events = queue })).0 in
      let rest = in_events_loop k (next_time w'.in_events) now job' w' in
      if leb_ℤ next now && leb_ℤ (pos 0) next then rest else some (next, w)

  -- One round of the loop, without its sleep: every round begins with no job.
  unfoldable pub loop_round : ℕ → (now : ℤ) → ServerWorker → Option (ℤ × ServerWorker)
  loop_round k now w = in_events_loop k (next_time w.in_events) now none w

  -- After the loop every socket that is counted is closed.
  abbrev pub close_all : Map ℤ ℤ → History → History
  close_all [] h = h
  close_all ((sockfd, n) ∷ counts) h = close_all counts (perform os (Call.close sockfd) h).1
