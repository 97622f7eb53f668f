-- ===== src/ServerWorker/Accepting.antt =====
-- src/serverWorker.cpp: the accepted clients that are reported, and the counts of servers.
use mimic_generator.Common.{
  ◌≡◌, refl, sym, ap, ◌∙◌, inl, inr, Bool, true, false, Option, none, some, [], ◌∷◌, Bool-cases,
}
use mimic_generator.Common.Int.{ℤ, pos, negsuc, ltb_ℤ, ◌==ℤ◌}
use mimic_generator.Common.Maps.{Text, find, int_eq, text_eq_instance}
use mimic_generator.Event.{Event}
use mimic_generator.EventQueue.Spec.{push}
use mimic_generator.Os.{Os, Call, SockAddr, History}
use mimic_generator.Connections.{Inet, ConnectionPair, get_conn_string}
use mimic_generator.Connections.Identity.{IsDotted, IsInet, get_conn_string-injective}
use mimic_generator.Connections.Sockets.{set_ipv4_tcp_non_blocking}
use mimic_generator.EventHandler.{name_connections}
use mimic_generator.EventHandler.Names.{Listed, AllInet, Listed-IsInet, named-Listed, string_of}
use mimic_generator.ServerWorker.{ServerWorker, accepted_event, accept_named, handle_accept}

module _ (os : Os) (inet : Inet) where
  abbrev pub client : Event → ServerWorker → SockAddr
  client job w = os.filled w.calls (Call.accept job.sockfd)

  abbrev pub new_sockfd : Event → ServerWorker → ℤ
  new_sockfd job w = os.result w.calls (Call.accept job.sockfd)

  abbrev pub set_up : Event → ServerWorker → ℤ × History
  set_up job w = set_ipv4_tcp_non_blocking os (new_sockfd job w) (Call.accept job.sockfd ∷ w.calls)

  abbrev pub server : Event → ServerWorker → SockAddr
  server job w = os.filled (set_up job w).1 (Call.getsockname job.sockfd)

  abbrev name_of : Event → ServerWorker → Text
  name_of job w = (get_conn_string inet (client job w) (server job w)).0

  abbrev named : Event → (now : ℤ) → ServerWorker → ServerWorker × Bool
  named job now w =
      accept_named (find (name_of job w) w.str_to_conn_id) job (new_sockfd job w) now
        (record w { calls = Call.getsockname job.sockfd ∷ (set_up job w).1 })

  -- What a call of `handleAccept` does to the queue that it reports to.
  Reports : Event → (now : ℤ) → ServerWorker → ServerWorker × Bool → Type 0
  Reports job now w (w', false) = w'.out_events ≡ w.out_events
  Reports job now w (w', true) =
      (c : ℤ) × (find (name_of job w) w.str_to_conn_id ≡ some c)
      × (w'.out_events ≡ push w.out_events (accepted_event c now (new_sockfd job w)))

  accept_named-Reports :
      (job : Event) (now : ℤ) (w : ServerWorker) (calls : History) (o : Option ℤ)
      → find (name_of job w) w.str_to_conn_id ≡ o
      → Reports job now w (accept_named o job (new_sockfd job w) now (record w { calls = calls }))
  unfolding Reports accept_named
  accept_named-Reports job now w calls none at = refl
  accept_named-Reports job now w calls (some c) at = (c, at, refl)

  handle_accept-Reports :
      (job : Event) (now : ℤ) (w : ServerWorker)
      → Reports job now w (handle_accept os inet job now w)
  unfolding Reports handle_accept get_conn_string
  handle_accept-Reports job now w = elim (Bool-cases (ltb_ℤ (set_up job w).0 (pos 0))) [
    | inl low ↦ rw low refl
    | inr ok ↦
        elim (Bool-cases (os.result (set_up job w).1 (Call.getsockname job.sockfd) ==ℤ negsuc 0)) [
          | inl bad ↦ rw (ok, bad) refl
          | inr good ↦
              rw (ok, good)
                (accept_named-Reports job now w (Call.getsockname job.sockfd ∷ (set_up job w).1)
                  (find (name_of job w) w.str_to_conn_id) refl)
        ]
  ]

  module _ (dotted : IsDotted inet) where
    -- What a call of `handleAccept` may do.
    abbrev pub Answers : Event → (now : ℤ) → ServerWorker → ServerWorker × Bool → Type 0
    Answers job now w (w', false) = w'.out_events ≡ w.out_events
    Answers job now w (w', true) =
        (c : ℤ) × (p : ConnectionPair) × Listed c p w.conn_id_to_connection_map
        × (p.src ≡ client job w)
        × (p.dst ≡ server job w)
        × (w'.out_events ≡ push w.out_events (accepted_event c now (new_sockfd job w)))

    answers :
        (job : Event) (now : ℤ) (w : ServerWorker) (r : ServerWorker × Bool)
        → AllInet w.conn_id_to_connection_map
        → w.str_to_conn_id ≡ name_connections inet w.conn_id_to_connection_map []
        → IsInet (client job w)
        → IsInet (server job w)
        → Reports job now w r
        → Answers job now w r
    unfolding Reports find string_of
    answers job now w (w', false) all started ic is same = same
    answers job now w (w', true) all started ic is (c, found, sent) =
        elim (named-Listed inet (name_of job w) c w.conn_id_to_connection_map []
          (ap (λ m. find (name_of job w) m) (sym started) ∙ found)) [
            | inl (p, l, name) ↦
                let (ips, ipd) = Listed-IsInet c p w.conn_id_to_connection_map all l in
                let (es, ed) = get_conn_string-injective inet dotted ips ipd ic is name in
                (c, p, l, es, ed, sent)
            | inr nothing ↦ absurd (cc)
          ]

    -- After `startup` over IPv4 connections: a call of `handleAccept` that fails reports nothing; one
    -- that succeeds reports one ACCEPTED event, with the new socket, for a connection of the map that
    -- has the client's address as its source and the server's as its destination.
    pub handle_accept-Answers :
        (job : Event) (now : ℤ) (w : ServerWorker)
        → AllInet w.conn_id_to_connection_map
        → w.str_to_conn_id ≡ name_connections inet w.conn_id_to_connection_map []
        → IsInet (client job w)
        → IsInet (server job w)
        → Answers job now w (handle_accept os inet job now w)
    handle_accept-Answers job now w all started ic is =
        answers job now w (handle_accept os inet job now w) all started ic is
          (handle_accept-Reports job now w)
