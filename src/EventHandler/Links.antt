-- ===== src/EventHandler/Links.antt =====
-- src/eventHandler.cpp: the maps from connections to sockets and back agree.
use mimic_generator.Common.{◌≡◌, ◌≢◌, sym, ◌∙◌, inl, inr, Option, none, some, ◌∷◌, Bool-cases}
use mathlib.Core.Option.{some-injective}
use mathlib.Core.Path.{subst}
use mimic_generator.Common.Int.{ℤ, negsuc, ◌==ℤ◌, ==ℤ_iff}
use mimic_generator.Common.Maps.{
  Map, find, insert, find-insert, find-insert_self, int_eq, text_eq_instance,
}
use mimic_generator.Event.{Event, EventType, send, connect}
use mimic_generator.EventHeap.{compare_events}
use mimic_generator.EventHeap.Contract.{JobHeap}
use mimic_generator.Os.{Os, Call, perform}
use mimic_generator.Connections.{Inet, ConnectionPair}
use mimic_generator.Connections.Sockets.{get_ipv4_tcp_sock}
use mimic_generator.EventHandler.{Handler, new_connection_update, ready_for_event}
use mimic_generator.EventHandler.Dispatch.{
  count_send, dispatch_send, connect_answer, connect_to, dispatch_as, dispatch, accept_named,
  accept_new_connection,
}
use mimic_generator.EventHandler.Names.{accept_cases, name_of, set_up}

-- The socket of a connection is mapped back to the connection.
abbrev pub Linked : Map ℤ ℤ → Map ℤ ℤ → Type 0
Linked to_sockfd to_conn = (c fd : ℤ) → find c to_sockfd ≡ some fd → find fd to_conn ≡ some c

abbrev pub Unused : ℤ → Map ℤ ℤ → Type 0
Unused fd to_sockfd = (c : ℤ) → find c to_sockfd ≢ some fd

Linked-insert :
    (to_sockfd to_conn : Map ℤ ℤ) (c fd : ℤ)
    → Linked to_sockfd to_conn
    → Unused fd to_sockfd
    → Linked (insert c fd to_sockfd) (insert fd c to_conn)
Linked-insert to_sockfd to_conn c fd linked unused d g e =
    let e' = sym (find-insert c d fd to_sockfd) ∙ e in
    elim (Bool-cases (c ==ℤ d)) [
      | inl same ↦
          let at : fd ≡ g = some-injective fd g (rw same at e') in
          rw (sym at, sym (==ℤ_iff c d same)) (find-insert_self fd c to_conn)
      | inr other ↦
          let old = rw other at e' in
          elim (Bool-cases (fd ==ℤ g)) [
            | inl same ↦ absurd (unused d (rw (==ℤ_iff fd g same) old))
            | inr new ↦ rw (find-insert fd g c to_conn, new) (linked d g old)
          ]
    ]

module _ {J : JobHeap compare_events} where
  abbrev pub IsLinked : Handler J → Type 0
  IsLinked h = Linked h.conn_to_sockfd_id_map h.sockfd_to_conn_id_map

  pub new_connection_update-IsLinked :
      (fd c now : ℤ) (h : Handler J)
      → IsLinked h
      → Unused fd h.conn_to_sockfd_id_map
      → IsLinked (new_connection_update fd c now h)
  unfolding new_connection_update
  new_connection_update-IsLinked fd c now h linked unused =
      Linked-insert h.conn_to_sockfd_id_map h.sockfd_to_conn_id_map c fd linked unused

  dispatch_send-IsLinked :
      (job : Event) (now : ℤ) (h : Handler J) → IsLinked h → IsLinked (dispatch_send job now h)
  unfolding dispatch_send
  dispatch_send-IsLinked job now h linked =
      elim (Bool-cases
        (ready_for_event (count_send job h) job.conn_id job.ms_from_last_event now)) [
          | inl ready ↦ rw ready linked
          | inr waits ↦ rw waits linked
        ]

module _ (os : Os) {J : JobHeap compare_events} where
  connect_answer-IsLinked :
      (fd status c now : ℤ) (h : Handler J)
      → IsLinked h
      → Unused fd h.conn_to_sockfd_id_map
      → IsLinked (connect_answer os fd status c now h)
  unfolding connect_answer
  connect_answer-IsLinked fd status c now h linked unused =
      elim (Bool-cases (status ==ℤ negsuc 0)) [
        | inl failed ↦ rw failed linked
        | inr ok ↦ rw ok (new_connection_update-IsLinked fd c now h linked unused)
      ]

  -- The descriptor that a CONNECT of this pair uses is not that of another connection.
  abbrev pub NewSocket : Option ConnectionPair → Handler J → Type 0
  NewSocket none h = Unit
  NewSocket (some pair) h =
      Unused (get_ipv4_tcp_sock os (some pair.src) h.calls).0 h.conn_to_sockfd_id_map

  connect_to-IsLinked :
      (o : Option ConnectionPair) (c now : ℤ) (h : Handler J)
      → IsLinked h
      → NewSocket o h
      → IsLinked (connect_to os o c now h)
  unfolding connect_to
  connect_to-IsLinked none c now h linked new = linked
  connect_to-IsLinked (some pair) c now h linked new =
      let (fd, calls) = get_ipv4_tcp_sock os (some pair.src) h.calls in
      let (status, calls) = perform os (Call.connect fd pair.dst) calls in
      connect_answer-IsLinked fd status c now (record h { calls = calls }) linked new

  dispatch_as-IsLinked :
      (t : EventType) (job : Event) (now : ℤ) (h : Handler J)
      → IsLinked h
      → NewSocket (find job.conn_id h.conn_id_to_connection_map) h
      → IsLinked (dispatch_as os t job now h)
  unfolding dispatch_as
  dispatch_as-IsLinked send job now h linked new = dispatch_send-IsLinked job now h linked
  dispatch_as-IsLinked connect job now h linked new =
      connect_to-IsLinked (find job.conn_id h.conn_id_to_connection_map) job.conn_id now h linked
        new
  dispatch_as-IsLinked _ job now h linked new = linked

  -- `dispatch` keeps it that every connection's socket is mapped back to the connection, if the
  -- socket that a CONNECT makes is not that of a connection yet.
  pub dispatch-IsLinked :
      (job : Event) (now : ℤ) (h : Handler J)
      → IsLinked h
      → NewSocket (find job.conn_id h.conn_id_to_connection_map) h
      → IsLinked (dispatch os job now h)
  unfolding dispatch
  dispatch-IsLinked job now h = dispatch_as-IsLinked job.type job now h

module _ (os : Os) (inet : Inet) {J : JobHeap compare_events} where
  accept_named-IsLinked :
      (o : Option ℤ) (fd now : ℤ) (h : Handler J)
      → IsLinked h
      → Unused fd h.conn_to_sockfd_id_map
      → IsLinked (accept_named o fd now h).0
  unfolding accept_named
  accept_named-IsLinked none fd now h linked new = linked
  accept_named-IsLinked (some c) fd now h linked new =
      new_connection_update-IsLinked fd c now h linked new

  -- `acceptNewConnection` keeps it that every connection's socket is mapped back to the connection,
  -- if the socket that `accept` makes is not that of a connection yet.
  pub accept_new_connection-IsLinked :
      (fd now : ℤ) (h : Handler J)
      → IsLinked h
      → Unused (os.result h.calls (Call.accept fd)) h.conn_to_sockfd_id_map
      → IsLinked (accept_new_connection os inet fd now h).0
  accept_new_connection-IsLinked fd now h linked new = elim (accept_cases os inet fd now h) [
    | inl (calls, same) ↦ subst (λ q. IsLinked q.0) (sym same) linked
    | inr (up, same) ↦
        subst (λ q. IsLinked q.0) (sym same)
          (accept_named-IsLinked (find (name_of os inet fd h) h.str_to_conn_id)
            (os.result h.calls (Call.accept fd)) now
            (record h { calls = Call.getsockname fd ∷ (set_up os inet fd h).1 }) linked new)
  ]
