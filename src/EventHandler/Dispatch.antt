-- ===== src/EventHandler/Dispatch.antt =====
-- src/eventHandler.cpp: what becomes of one event, of the deferred events and of a new connection.
use mimic_generator.Common.{ℕ, zero, suc, Bool, false, Option, none, some, if◌then◌else◌}
use mimic_generator.Common.Int.{ℤ, pos, negsuc, ◌+ℤ◌, ltb_ℤ, ◌==ℤ◌, to_int}
use mimic_generator.Common.Maps.{find, insert, find_or, int_eq, text_eq_instance}
use mimic_generator.Event.{Event, EventType, accept, connect, recv, wait, send, srv_start, srv_end}
use mimic_generator.EventHeap.{compare_events, next_event}
use mimic_generator.EventHeap
use mimic_generator.EventHeap.Contract.{JobHeap}
use mimic_generator.EventQueue.Spec.{push}
use mimic_generator.Os.{Os, Call, perform}
use mimic_generator.Connections.{Inet, ConnectionPair, get_conn_string}
use mimic_generator.Connections.Sockets.{get_ipv4_tcp_sock, set_ipv4_tcp_non_blocking}
use mimic_generator.EventHandler.{Handler, ready_for_event, new_connection_update}

module _ {J : JobHeap compare_events} where
  -- The bytes of a SEND are added to what waits to be sent.
  abbrev pub count_send : Event → Handler J → Handler J
  count_send job h =
      let waiting = find_or (pos 0) job.conn_id h.conn_to_waiting_to_send in
      record h {
        conn_to_waiting_to_send =
            insert job.conn_id (to_int (waiting +ℤ job.value)) h.conn_to_waiting_to_send;
      }

  -- The case SEND: the bytes are counted first, then the event goes to the send queue or the heap.
  unfoldable pub dispatch_send : Event → (now : ℤ) → Handler J → Handler J
  dispatch_send job now h =
      let h = count_send job h in
      if ready_for_event h job.conn_id job.ms_from_last_event now
      then record h { send_req = push h.send_req job }
      else record h { wait_heap = EventHeap.add_event J h.wait_heap job }

module _ (os : Os) {J : JobHeap compare_events} where
  -- After `connect` answers `status`.
  unfoldable pub connect_answer : (sockfd status conn_id now : ℤ) → Handler J → Handler J
  connect_answer sockfd status conn_id now h =
      if status ==ℤ negsuc 0
      then record h { calls = (perform os (Call.close sockfd) h.calls).1 }
      else new_connection_update sockfd conn_id now h

  -- The case CONNECT, by what `find` finds.
  unfoldable pub connect_to : Option ConnectionPair → (conn_id now : ℤ) → Handler J → Handler J
  connect_to none conn_id now h = h
  connect_to (some pair) conn_id now h =
      let (sockfd, calls) = get_ipv4_tcp_sock os (some pair.src) h.calls in
      let (status, calls) = perform os (Call.connect sockfd pair.dst) calls in
      connect_answer sockfd status conn_id now (record h { calls = calls })

  -- The cases of `dispatch`.
  unfoldable pub dispatch_as : EventType → Event → (now : ℤ) → Handler J → Handler J
  dispatch_as accept job now h = h
  dispatch_as wait job now h =
      let waiting = find_or (pos 0) job.conn_id h.conn_to_waiting_to_recv in
      record h {
        conn_to_waiting_to_recv =
            insert job.conn_id (to_int (waiting +ℤ job.value)) h.conn_to_waiting_to_recv;
      }
  dispatch_as recv job now h = h
  dispatch_as connect job now h =
      connect_to (find job.conn_id h.conn_id_to_connection_map) job.conn_id now h
  dispatch_as send job now h = dispatch_send job now h
  dispatch_as srv_start job now h = h
  dispatch_as srv_end job now h = h
  dispatch_as _ job now h = h

  unfoldable pub dispatch : Event → (now : ℤ) → Handler J → Handler J
  dispatch job now h = dispatch_as job.type job now h

  -- The handler when the loop ends, with fuel for the events that come out of the heap.
  unfoldable pub check_deferred : ℕ → (now : ℤ) → Handler J → Option (Handler J)
  check_deferred zero now h = none
  check_deferred (suc k) now h =
      let (heap, e) = next_event J h.wait_heap in
      elim e [
        | none ↦ some (record h { wait_heap = heap })
        | some job ↦ check_deferred k now (dispatch job now (record h { wait_heap = heap }))
      ]

module _ {J : JobHeap compare_events} where
  -- The end of `acceptNewConnection`, by what `find` finds. The result is none where the function
  -- ends without a return statement.
  unfoldable pub accept_named :
      Option ℤ → (new_sockfd now : ℤ) → Handler J → Handler J × Option Bool
  accept_named none new_sockfd now h = (h, some false)
  accept_named (some conn_id) new_sockfd now h =
      (new_connection_update new_sockfd conn_id now h, none)

module _ (os : Os) (inet : Inet) {J : JobHeap compare_events} where
  unfoldable pub accept_new_connection : (fd now : ℤ) → Handler J → Handler J × Option Bool
  accept_new_connection fd now h =
      let in_addr = os.filled h.calls (Call.accept fd) in
      let (new_sockfd, calls) = perform os (Call.accept fd) h.calls in
      let (status, calls) = set_ipv4_tcp_non_blocking os new_sockfd calls in
      if ltb_ℤ status (pos 0)
      then (record h { calls = calls }, some false)
      else (let sa_srv = os.filled calls (Call.getsockname fd) in
          let (named, calls) = perform os (Call.getsockname fd) calls in
          let h = record h { calls = calls } in
          let (conn_string, success) = get_conn_string inet in_addr sa_srv in
          if named ==ℤ negsuc 0
          then (h, some false)
          else if success
          then accept_named (find conn_string h.str_to_conn_id) new_sockfd now h
          else (h, some false))
