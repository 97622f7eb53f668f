-- ===== src/ServerWorker/Closing.antt =====
-- src/serverWorker.cpp, `loop`: the sockets that are closed after it are those of all servers.
use mathlib.Core.List.{Mem, mem-cons_self, mem-cons_of_mem}
use mathlib.Core.Path.{subst}
use mathlib.Core.Option.{some-injective}
use mimic_generator.Common.{
  ℕ, zero, suc, ◌≡◌, sym, ◌∙◌, inl, inr, Bool, true, false, ◌&&◌, Option, none, some, ◌∷◌, [],
  Bool-cases,
}
use mimic_generator.Common.Int.{ℤ, pos, negsuc, ltb_ℤ, leb_ℤ, ◌==ℤ◌, ==ℤ_iff}
use mimic_generator.Common.Maps.{
  Map, Text, find, insert, find-insert, find-insert_self, find-insert-some, text_eq, int_eq,
  text_eq_instance,
}
use mimic_generator.Event.{Event, EventType, accept, srv_start}
use mimic_generator.EventQueue.Spec.{pop, next_time}
use mimic_generator.Os.{Os, Call, History, SockAddr}
use mimic_generator.Connections.{Inet, ConnectionPair, get_conn_string, get_ip_port_string}
use mimic_generator.Connections.Sockets.{get_ipv4_tcp_sock, set_ipv4_tcp_non_blocking}
use mimic_generator.ServerWorker.{
  ServerWorker, accept_named, start_server, start_once, start_for, handle_srv_start,
  handle_srv_stop, handle_accept, handle_as, handle_job, job_after, in_events_loop, loop_round,
  close_all,
}
use mimic_generator.ServerWorker.Starting.{StartServer, start_server-StartServer}

-- The socket of every server that is known has a count.
abbrev pub Counts : Map Text ℤ → Map ℤ ℤ → Type 0
Counts servers counts =
    (name : Text) (fd : ℤ) → find name servers ≡ some fd → (n : ℤ) × (find fd counts ≡ some n)

abbrev pub IsCounted : ServerWorker → Type 0
IsCounted w = Counts w.srv_string_to_sockfd w.sockfd_to_conn_count

Counts-count :
    (servers : Map Text ℤ) (counts : Map ℤ ℤ) (fd n : ℤ)
    → Counts servers counts
    → Counts servers (insert fd n counts)
Counts-count servers counts fd n counted name g e =
    let (m, at) = counted name g e in find-insert-some fd g n m counts at

Counts-server :
    (servers : Map Text ℤ) (counts : Map ℤ ℤ) (server : Text) (fd : ℤ)
    → Counts servers counts
    → Counts (insert server fd servers) (insert fd (pos 0) counts)
Counts-server servers counts server fd counted name g e =
    let e' = sym (find-insert server name fd servers) ∙ e in
    elim (Bool-cases (text_eq server name)) [
      | inl same ↦
          let at : fd ≡ g = some-injective fd g (rw same at e') in
          (pos 0, rw (sym at) (find-insert_self fd (pos 0) counts))
      | inr other ↦ Counts-count servers counts fd (pos 0) counted name g (rw other at e')
    ]

accept_named-IsCounted :
    (o : Option ℤ) (job : Event) (fd now : ℤ) (w : ServerWorker)
    → IsCounted w
    → IsCounted (accept_named o job fd now w).0
unfolding accept_named
accept_named-IsCounted none job fd now w counted = counted
accept_named-IsCounted (some c) job fd now w counted =
    Counts-count w.srv_string_to_sockfd w.sockfd_to_conn_count job.sockfd _ counted

module _ (os : Os) (inet : Inet) where
  started-IsCounted :
      (name : Text) (dst : SockAddr) (w : ServerWorker) (r : ServerWorker × Bool)
      → StartServer os inet name dst w r
      → IsCounted w
      → IsCounted r.0
  started-IsCounted name dst w (w', true) (servers, counts, _) counted =
      let fd = (get_ipv4_tcp_sock os (some dst) w.calls).0 in
      subst (λ m. Counts w'.srv_string_to_sockfd m) (sym counts)
        (subst (λ m. Counts m (insert fd (pos 0) w.sockfd_to_conn_count)) (sym servers)
          (Counts-server w.srv_string_to_sockfd w.sockfd_to_conn_count name fd counted))
  started-IsCounted name dst w (w', false) (calls, e) counted = subst IsCounted (sym e) counted

  start_once-IsCounted :
      (o : Option ℤ) (name : Text) (dst : SockAddr) (w : ServerWorker)
      → IsCounted w
      → IsCounted (start_once os inet o name dst w).0
  unfolding start_once
  start_once-IsCounted (some fd) name dst w counted = counted
  start_once-IsCounted none name dst w counted =
      started-IsCounted name dst w (start_server os inet name dst w)
        (start_server-StartServer os inet name dst w) counted

  start_for-IsCounted :
      (o : Option ConnectionPair) (w : ServerWorker)
      → IsCounted w
      → IsCounted (start_for os inet o w).0
  unfolding start_for
  start_for-IsCounted none w counted = counted
  start_for-IsCounted (some pair) w counted =
      let name = get_ip_port_string inet pair.dst in
      start_once-IsCounted (find name w.srv_string_to_sockfd) name pair.dst w counted

  handle_accept-IsCounted :
      (job : Event) (now : ℤ) (w : ServerWorker)
      → IsCounted w
      → IsCounted (handle_accept os inet job now w).0
  unfolding handle_accept get_conn_string
  handle_accept-IsCounted job now w counted =
      let fd = os.result w.calls (Call.accept job.sockfd) in
      let up = set_ipv4_tcp_non_blocking os fd (Call.accept job.sockfd ∷ w.calls) in
      elim (Bool-cases (ltb_ℤ up.0 (pos 0))) [
        | inl low ↦ rw low counted
        | inr ok ↦ elim (Bool-cases (os.result up.1 (Call.getsockname job.sockfd) ==ℤ negsuc 0)) [
          | inl bad ↦ rw (ok, bad) counted
          | inr good ↦
              rw (ok, good)
                (accept_named-IsCounted _ job fd now
                  (record w { calls = Call.getsockname job.sockfd ∷ up.1 }) counted)
        ]
      ]

  handle_as-IsCounted :
      (t : EventType) (job : Event) (now : ℤ) (w : ServerWorker)
      → IsCounted w
      → IsCounted (handle_as os inet t job now w).0
  unfolding handle_as handle_srv_start handle_srv_stop
  handle_as-IsCounted accept job now w counted = handle_accept-IsCounted job now w counted
  handle_as-IsCounted srv_start job now w counted =
      start_for-IsCounted (find job.conn_id w.conn_id_to_connection_map) w counted
  handle_as-IsCounted _ job now w counted = counted

  -- Whatever the job is: `handleJob` keeps it that the socket of every known server has a count.
  handle_job-IsCounted :
      (o : Option Event) (now : ℤ) (w : ServerWorker)
      → IsCounted w
      → IsCounted (handle_job os inet o now w).0
  unfolding handle_job
  handle_job-IsCounted none now w counted = counted
  handle_job-IsCounted (some job) now w counted = handle_as-IsCounted job.type job now w counted

  in_events_loop-IsCounted :
      (k : ℕ) (next now : ℤ) (job : Option Event) (w : ServerWorker) (next' : ℤ) (w' : ServerWorker)
      → in_events_loop os inet k next now job w ≡ some (next', w')
      → IsCounted w
      → IsCounted w'
  unfolding in_events_loop
  in_events_loop-IsCounted zero next now job w next' w' e counted = absurd (cc)
  in_events_loop-IsCounted (suc k) next now job w next' w' e counted =
      let (queue, j) = pop w.in_events in
      let job' = job_after os inet job j in
      let v = (handle_job os inet job' now (record w { in_events = queue })).0 in
      elim (Bool-cases (leb_ℤ next now && leb_ℤ (pos 0) next)) [
        | inl due ↦
            in_events_loop-IsCounted k (next_time v.in_events) now job' v next' w' (rw due at e)
              (handle_job-IsCounted job' now (record w { in_events = queue }) counted)
        | inr early ↦
            subst (λ (x : ℤ × ServerWorker). IsCounted x.1) (some-injective _ _ (rw early at e))
              counted
      ]

module _ (os : Os) (inet : Inet) where
  close_all-keeps :
      (c : Call) (counts : Map ℤ ℤ) (h : History) → Mem c h → Mem c (close_all os inet counts h)
  close_all-keeps c [] h m = m
  close_all-keeps c ((fd, n) ∷ counts) h m =
      close_all-keeps c counts (Call.close fd ∷ h) (mem-cons_of_mem (Call.close fd) m)

  close_all-found :
      (fd n : ℤ) (counts : Map ℤ ℤ) (h : History)
      → find fd counts ≡ some n
      → Mem (Call.close fd) (close_all os inet counts h)
  unfolding find
  close_all-found fd n [] h e = absurd (cc)
  close_all-found fd n ((g, m) ∷ counts) h e = elim (Bool-cases (g ==ℤ fd)) [
    | inl same ↦
        rw (==ℤ_iff g fd same)
          (close_all-keeps (Call.close fd) counts (Call.close fd ∷ h) mem-cons_self)
    | inr other ↦ close_all-found fd n counts (Call.close g ∷ h) (rw other at e)
  ]

module _ (os : Os) (inet : Inet) where
  -- A round of the loop keeps it that the socket of every known server has a count. So, if the loop
  -- ends after the round, the socket of every server that is known then is closed.
  pub loop_round-closes :
      (k : ℕ) (now : ℤ) (w : ServerWorker) (next : ℤ) (w' : ServerWorker)
      → loop_round os inet k now w ≡ some (next, w')
      → IsCounted w
      → IsCounted w'
        × ((name : Text) (fd : ℤ)
            → find name w'.srv_string_to_sockfd ≡ some fd
            → Mem (Call.close fd) (close_all os inet w'.sockfd_to_conn_count w'.calls))
  unfolding loop_round
  loop_round-closes k now w next w' e counted =
      let counted' =
        in_events_loop-IsCounted os inet k (next_time w.in_events) now none w next w' e counted in
      (
        counted',
        λ name fd at.
            let (n, found) = counted' name fd at in
            close_all-found os inet fd n w'.sockfd_to_conn_count w'.calls found,
      )
