-- ===== src/ServerWorker/Starting.antt =====
-- src/serverWorker.cpp, `handleSrvStart`: a server is started once, and is counted.
use mimic_generator.Common.{
  ◌≡◌, refl, ap, ◌∙◌, inl, inr, Bool, true, false, Option, none, some, ◌∷◌, Bool-cases,
}
use mimic_generator.Common.Int.{ℤ, pos, negsuc, ◌==ℤ◌}
use mimic_generator.Common.Maps.{Text, find, insert, find-insert_self, int_eq, text_eq_instance}
use mimic_generator.Event.{Event}
use mimic_generator.Os.{Os, Call, SockAddr, History}
use mimic_generator.Connections.{Inet, ConnectionPair, get_ip_port_string}
use mimic_generator.Connections.Sockets.{get_ipv4_tcp_sock}
use mimic_generator.ServerWorker.{
  ServerWorker, max_backlog_per_srv, server_mask, start_server, start_once, start_for,
  handle_srv_start,
}

module _ (os : Os) (inet : Inet) where
  -- What `start_server` may do.
  abbrev pub StartServer : Text → SockAddr → ServerWorker → ServerWorker × Bool → Type 0
  StartServer name dst w (w', true) =
      (w'.srv_string_to_sockfd
        ≡ insert name (get_ipv4_tcp_sock os (some dst) w.calls).0 w.srv_string_to_sockfd)
      × (w'.sockfd_to_conn_count
          ≡ insert (get_ipv4_tcp_sock os (some dst) w.calls).0 (pos 0) w.sockfd_to_conn_count)
      × (w'.conn_id_to_connection_map ≡ w.conn_id_to_connection_map)
  StartServer name dst w (w', false) = (calls : History) × (w' ≡ record w { calls = calls })

  pub start_server-StartServer :
      (name : Text) (dst : SockAddr) (w : ServerWorker)
      → StartServer name dst w (start_server os inet name dst w)
  unfolding start_server
  start_server-StartServer name dst w =
      let (sockfd, calls) = get_ipv4_tcp_sock os (some dst) w.calls in
      elim (Bool-cases (sockfd ==ℤ negsuc 0)) [
        | inl none_made ↦ rw none_made (calls, refl)
        | inr made ↦
            let listen = Call.listen sockfd max_backlog_per_srv in
            elim (Bool-cases (os.result calls listen ==ℤ negsuc 0)) [
              | inl deaf ↦ rw (made, deaf) (listen ∷ calls, refl)
              | inr listens ↦
                  let add = Call.epoll_add w.efd sockfd server_mask in
                  elim (Bool-cases (os.result (listen ∷ calls) add ==ℤ pos 0)) [
                    | inl added ↦ rw (made, listens, added) (refl, refl, refl)
                    | inr failed ↦ rw (made, listens, failed) (add ∷ listen ∷ calls, refl)
                  ]
            ]
      ]

  once_known :
      (name : Text) (dst : SockAddr) (w : ServerWorker) (fd : ℤ)
      → find name w.srv_string_to_sockfd ≡ some fd
      → start_once os inet (find name w.srv_string_to_sockfd) name dst w ≡ (w, true)
  unfolding start_once
  once_known name dst w fd e = ap (λ o. start_once os inet o name dst w) e

  -- A server that is started is known then.
  Known : Text → ServerWorker → ServerWorker × Bool → Type 0
  Known name w r =
      r.1 ≡ true
      → ((fd : ℤ) × (find name r.0.srv_string_to_sockfd ≡ some fd))
        × (r.0.conn_id_to_connection_map ≡ w.conn_id_to_connection_map)

  Known-of_StartServer :
      (name : Text) (dst : SockAddr) (w : ServerWorker) (r : ServerWorker × Bool)
      → StartServer name dst w r
      → Known name w r
  unfolding Known
  Known-of_StartServer name dst w (w', true) (srv, count, conns) e = (
    (
      (get_ipv4_tcp_sock os (some dst) w.calls).0,
      ap (find name) srv
          ∙ find-insert_self name (get_ipv4_tcp_sock os (some dst) w.calls).0
              w.srv_string_to_sockfd,
    ),
    conns,
  )
  Known-of_StartServer name dst w (w', false) s e = absurd (cc)

  start_once-Known :
      (name : Text) (dst : SockAddr) (w : ServerWorker) (o : Option ℤ)
      → find name w.srv_string_to_sockfd ≡ o
      → Known name w (start_once os inet o name dst w)
  unfolding start_once Known
  start_once-Known name dst w none at e =
      Known-of_StartServer name dst w (start_server os inet name dst w)
        (start_server-StartServer name dst w) e
  start_once-Known name dst w (some fd) at e = ((fd, at), refl)

  start_for-again :
      (o : Option ConnectionPair) (w : ServerWorker)
      → (start_for os inet o w).1 ≡ true
      → (start_for os inet o (start_for os inet o w).0 ≡ ((start_for os inet o w).0, true))
        × ((start_for os inet o w).0.conn_id_to_connection_map ≡ w.conn_id_to_connection_map)
  unfolding start_for Known
  start_for-again none w e = absurd (cc)
  start_for-again (some pair) w e =
      let name = get_ip_port_string inet pair.dst in
      let w' = (start_once os inet (find name w.srv_string_to_sockfd) name pair.dst w).0 in
      let ((fd, at), conns) =
        start_once-Known name pair.dst w (find name w.srv_string_to_sockfd) refl e in
      (once_known name pair.dst w' fd at, conns)

  -- A server is started once: if `handleSrvStart` succeeds, a second call for the same job
  -- succeeds, makes no system call and changes nothing.
  pub handle_srv_start-again :
      (job : Event) (w : ServerWorker)
      → (handle_srv_start os inet job w).1 ≡ true
      → handle_srv_start os inet job (handle_srv_start os inet job w).0
        ≡ ((handle_srv_start os inet job w).0, true)
  unfolding handle_srv_start
  handle_srv_start-again job w e =
      let o = find job.conn_id w.conn_id_to_connection_map in
      let (again, conns) = start_for-again o w e in
      ap (λ m. start_for os inet (find job.conn_id m) (start_for os inet o w).0) conns ∙ again
