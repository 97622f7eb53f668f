-- ===== src/EventHandler/Wired.antt =====
-- src/eventHandler.cpp, `loop`: the sockets of the connections, in every round.
use mimic_generator.Common.{
  ◌≡◌, ◌≢◌, refl, sym, ap, ◌∙◌, inl, inr, ◌⊎◌, Bool-cases, true, false, Option, none, some, ◌∷◌,
  arith, ℕ, suc, ◌%◌, ◌/◌, ◌==◌, ◌&&◌, not, ltb,
}
use mathlib.Core.Path.{subst}
use mathlib.Core.Option.{some-injective}
use mimic_generator.Common.Int.{ℤ, pos, negsuc, ◌==ℤ◌, ==ℤ_iff, ==ℤ_refl, ltb_ℤ}
use mimic_generator.Common.Maps.{find, find-insert, int_eq, text_eq_instance}
use mimic_generator.Event.{Event, EventType, send, connect}
use mimic_generator.EventHeap.{compare_events}
use mimic_generator.EventHeap.Contract.{JobHeap}
use mimic_generator.Os.{Os, Call, History, is_open}
use mimic_generator.Connections.{Inet, ConnectionPair, get_conn_string}
use mimic_generator.Connections.Sockets.{get_ipv4_tcp_sock, set_ipv4_tcp_non_blocking}
use mimic_generator.EventHandler.{Handler, new_connection_update, ready_for_event}
use mimic_generator.EventHandler.Dispatch.{
  count_send, dispatch_send, connect_answer, connect_to, dispatch_as, dispatch, accept_named,
  accept_new_connection,
}
use mimic_generator.EventHandler.Loop.{
  max_queued_file_events, count_file_event, wake_file_worker, loop_round,
}
use mimic_generator.EventHandler.Links.{IsLinked, Unused, new_connection_update-IsLinked}
use mimic_generator.EventHandler.Names.{name_of, set_up}
use mimic_generator.EventHandler.Rounds.{Keeps, loop_round-keeps}
use mimic_generator.PollHandler.{PollHandler, wait_for_events}
use mimic_generator.EventHandler.Posix.{
  IsPosix, Stays, non_blocking-Stays, sock-Stays, next_event-Stays, send_signal-Stays, sock-new,
  non_blocking-bad,
}

module _ (os : Os) {J : JobHeap compare_events} where
  -- Each connection's socket is mapped back to the connection, and is open.
  pub record IsWired (h : Handler J) : Type 0 where
    pub linked : IsLinked h
    pub live :
        (c fd : ℤ)
        → find c h.conn_to_sockfd_id_map ≡ some fd
        → (fd ≢ negsuc 0) × (is_open os fd h.calls ≡ true)

  with_calls-IsWired :
      (h : Handler J) (calls : History)
      → Stays os h.calls calls
      → IsWired h
      → IsWired (record h { calls = calls })
  with_calls-IsWired h calls stays w = record {
    linked = w.linked;
    live = λ c fd e. let (ne, o) = w.live c fd e in (ne, stays fd o);
  }

  -- A descriptor that was not open is the socket of no connection.
  new-Unused :
      (fd : ℤ) (h : Handler J)
      → (fd ≡ negsuc 0) ⊎ (is_open os fd h.calls ≡ false)
      → IsWired h
      → Unused fd h.conn_to_sockfd_id_map
  new-Unused fd h (inl bad) w c e = (w.live c fd e).0 bad
  new-Unused fd h (inr new) w c e = let (ne, o) = w.live c fd e in cc

  update-IsWired :
      (fd c now : ℤ) (h : Handler J)
      → fd ≢ negsuc 0
      → is_open os fd h.calls ≡ true
      → Unused fd h.conn_to_sockfd_id_map
      → IsWired h
      → IsWired (new_connection_update fd c now h)
  unfolding new_connection_update
  update-IsWired fd c now h ne o unused w = record {
    linked = new_connection_update-IsLinked fd c now h w.linked unused;
    live = λ d g e.
        let e' = sym (find-insert c d fd h.conn_to_sockfd_id_map) ∙ e in
        elim (Bool-cases (c ==ℤ d)) [
          | inl same ↦
              let at : fd ≡ g = some-injective fd g (rw same at e') in
              subst (λ x. (x ≢ negsuc 0) × (is_open os x h.calls ≡ true)) at (ne, o)
          | inr other ↦ w.live d g (rw other at e')
        ];
  }

  dispatch_send-IsWired :
      (job : Event) (now : ℤ) (h : Handler J) → IsWired h → IsWired (dispatch_send job now h)
  unfolding dispatch_send
  dispatch_send-IsWired job now h w =
      elim (Bool-cases
        (ready_for_event (count_send job h) job.conn_id job.ms_from_last_event now)) [
          | inl ready ↦ rw ready (record { linked = w.linked; live = w.live })
          | inr waits ↦ rw waits (record { linked = w.linked; live = w.live })
        ]

  -- A file event that is counted, with the calls made for it.
  count_file_event-IsWired : (h : Handler J) → IsWired h → IsWired (count_file_event os h)
  unfolding count_file_event
  count_file_event-IsWired h w =
      let count = suc h.file_events_handled_count in
      let asks =
        (count % (max_queued_file_events / 10) == 0)
        && not (h.last_event_count_when_requesting_for_more == count) in
      let n = h.request_more_file_events in
      elim (Bool-cases asks) [
        | inl yes_asks ↦ rw yes_asks (record {
          linked = w.linked;
          live = λ c fd e. let (ne, o) = w.live c fd e in (ne, send_signal-Stays os n h.calls fd o);
        })
        | inr no_asks ↦ rw no_asks (record { linked = w.linked; live = w.live })
      ]

  wake_file_worker-IsWired : (h : Handler J) → IsWired h → IsWired (wake_file_worker h)
  unfolding wake_file_worker
  wake_file_worker-IsWired h w =
      elim (Bool-cases (ltb (max_queued_file_events / 2) h.file_events_handled_count)) [
        | inl half ↦ rw half (record { linked = w.linked; live = w.live })
        | inr less ↦ rw less w
      ]

module _ (os : Os) (posix : IsPosix os) where
  module _ {J : JobHeap compare_events} where
    connect_to-IsWired :
        (o : Option ConnectionPair) (c now : ℤ) (h : Handler J)
        → IsWired os h
        → IsWired os (connect_to os o c now h)
    unfolding connect_to connect_answer
    connect_to-IsWired none c now h w = w
    connect_to-IsWired (some pair) c now h w =
        let (fd, calls) = get_ipv4_tcp_sock os (some pair.src) h.calls in
        let call = Call.connect fd pair.dst in
        let stays = sock-Stays os pair.src h.calls in
        let got = sock-new os posix pair.src h.calls in
        let unused : Unused fd h.conn_to_sockfd_id_map =
          new-Unused os fd h (elim got [ inl bad ↦ inl bad | inr new ↦ inr new.0 ]) w in
        elim (Bool-cases (os.result calls call ==ℤ negsuc 0)) [
          | inl failed ↦ rw failed (record {
            linked = w.linked;
            live = λ d g e.
                let (ne, o) = w.live d g e in
                let other : fd ≢ g = λ same. unused d (e ∙ ap some (sym same)) in
                (ne, ground (arith, stays g o, ==ℤ_iff fd g));
          })
          | inr ok ↦
              let ne : fd ≢ negsuc 0 = λ bad.
                let fails : os.result calls call ≡ negsuc 0 =
                  ap (λ x. os.result calls (Call.connect x pair.dst)) bad
                  ∙ posix.connect_bad calls pair.dst in
                let at = ap (λ x. x ==ℤ negsuc 0) fails in cc in
              rw ok (elim got [
                | inl bad ↦ absurd (ne bad)
                | inr (new, o) ↦
                    update-IsWired os fd c now (record h { calls = call ∷ calls }) ne o unused
                      (with_calls-IsWired os h (call ∷ calls) stays w)
              ])
        ]

    dispatch_as-IsWired :
        (t : EventType) (job : Event) (now : ℤ) (h : Handler J)
        → IsWired os h
        → IsWired os (dispatch_as os t job now h)
    unfolding dispatch_as
    dispatch_as-IsWired send job now h w = dispatch_send-IsWired os job now h w
    dispatch_as-IsWired connect job now h w =
        connect_to-IsWired (find job.conn_id h.conn_id_to_connection_map) job.conn_id now h w
    dispatch_as-IsWired _ job now h w = record { linked = w.linked; live = w.live }

    accept_named-IsWired :
        (o : Option ℤ) (fd now : ℤ) (h : Handler J)
        → fd ≢ negsuc 0
        → is_open os fd h.calls ≡ true
        → Unused fd h.conn_to_sockfd_id_map
        → IsWired os h
        → IsWired os (accept_named o fd now h).0
    unfolding accept_named
    accept_named-IsWired none fd now h ne o unused w = w
    accept_named-IsWired (some c) fd now h ne o unused w =
        update-IsWired os fd c now h ne o unused w

module _ (os : Os) (posix : IsPosix os) (inet : Inet) {J : JobHeap compare_events} where
  accept_new_connection-IsWired :
      (fd now : ℤ) (h : Handler J)
      → IsWired os h
      → IsWired os (accept_new_connection os inet fd now h).0
  unfolding accept_new_connection get_conn_string
  accept_new_connection-IsWired fd now h w =
      let s = os.result h.calls (Call.accept fd) in
      let accepted = Call.accept fd ∷ h.calls in
      let up = set_up os inet fd h in
      let stays : Stays os h.calls up.1 =
        λ g o. non_blocking-Stays os s accepted g (ground arith) in
      let named = Call.getsockname fd ∷ up.1 in
      let unused = new-Unused os s h (posix.accept_new h.calls fd) w in
      elim (Bool-cases (ltb_ℤ up.0 (pos 0))) [
        | inl low ↦ rw low (with_calls-IsWired os h up.1 stays w)
        | inr ok ↦
            let ne : s ≢ negsuc 0 = λ bad.
              let fails : up.0 ≡ negsuc 0 =
                ap (λ x. (set_ipv4_tcp_non_blocking os x accepted).0) bad
                ∙ non_blocking-bad os posix accepted in
              let at = ap (λ x. ltb_ℤ x (pos 0)) fails in cc in
            let made : (s ==ℤ negsuc 0) ≡ false = elim (Bool-cases (s ==ℤ negsuc 0)) [
              | inl bad ↦ absurd (ne (==ℤ_iff s (negsuc 0) bad))
              | inr made ↦ made
            ] in
            let o : is_open os s up.1 ≡ true =
              non_blocking-Stays os s accepted s (rw (made, ==ℤ_refl s) refl) in
            elim (Bool-cases (os.result up.1 (Call.getsockname fd) ==ℤ negsuc 0)) [
              | inl bad ↦ rw (ok, bad) (with_calls-IsWired os h named stays w)
              | inr good ↦
                  rw (ok, good)
                    (accept_named-IsWired os posix (find (name_of os inet fd h) h.str_to_conn_id) s
                      now (record h { calls = named }) ne o unused
                      (with_calls-IsWired os h named stays w))
            ]
      ]

  IsWired-Keeps : Keeps os inet (IsWired os {J = J})
  unfolding dispatch wait_for_events
  IsWired-Keeps = record {
    queue = λ h q w. record { linked = w.linked; live = w.live };
    heap = λ h heap w. record { linked = w.linked; live = w.live };
    counts = λ h. count_file_event-IsWired os h;
    wakes = λ h. wake_file_worker-IsWired os h;
    dispatches = λ job now h. dispatch_as-IsWired os posix job.type job now h;
    waits = λ timeout p h w. with_calls-IsWired os h _ (λ fd o. o) w;
    hands = λ p q e calls h at w.
        with_calls-IsWired os h calls (next_event-Stays os p q e h.calls calls at) w;
    accepts = λ fd now h. accept_new_connection-IsWired fd now h;
  }

  -- If the system calls behave as documented, a round of the loop keeps it that the socket of every
  -- connection is open, and is mapped back to that connection.
  pub loop_round-IsWired :
      (k : ℕ) (next now later : ℤ) (p : PollHandler) (h : Handler J) (next' : ℤ) (p' : PollHandler)
      → (h' : Handler J) → loop_round os inet k next now later p h ≡ some (next', p', h')
      → IsWired os h
      → IsWired os h'
  loop_round-IsWired k next now later p h next' p' h' =
      loop_round-keeps os inet IsWired-Keeps k next now later p h next' p' h'
