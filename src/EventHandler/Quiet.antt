-- ===== src/EventHandler/Quiet.antt =====
-- src/eventHandler.cpp: what leaves the counts of file events and the signals as they are.
use mimic_generator.Common.{
  ℕ, suc, ◌≡◌, refl, ◌∙◌, inl, inr, Option, none, some, [], ◌∷◌, arith, Bool-cases,
}
use mimic_generator.Common.Int.{ℤ, pos, negsuc, ltb_ℤ, ◌==ℤ◌}
use mimic_generator.Common.Maps.{find, int_eq, text_eq_instance}
use mimic_generator.Event.{Event, EventType, send, connect}
use mimic_generator.EventHeap.{compare_events}
use mimic_generator.EventHeap.Contract.{JobHeap}
use mimic_generator.EventNotifier.{EventNotifier, send_signal}
use mimic_generator.Os.{Os, Call, History, SockAddr}
use mimic_generator.Connections.{Inet, ConnectionPair, get_conn_string}
use mimic_generator.Connections.Sockets.{get_ipv4_tcp_sock, set_ipv4_tcp_non_blocking}
use mimic_generator.EventHandler.{Handler, ready_for_event, new_connection_update}
use mimic_generator.EventHandler.Dispatch.{
  count_send, dispatch_send, connect_answer, connect_to, dispatch_as, accept_named,
  accept_new_connection,
}
use mimic_generator.EventHandler.Names.{name_of, set_up}

-- The signals that have been sent.
abbrev pub signals : History → ℕ
signals [] = 0
signals (Call.write_eventfd fd n ∷ h) = suc (signals h)
signals (_ ∷ h) = signals h

module _ {J : JobHeap compare_events} where
  -- Neither the counts nor the signals change.
  pub record Quiet (h h' : Handler J) : Type 0 where
    pub count : h'.file_events_handled_count ≡ h.file_events_handled_count
    pub last :
        h'.last_event_count_when_requesting_for_more ≡ h.last_event_count_when_requesting_for_more
    pub sent : signals h'.calls ≡ signals h.calls

  pub Quiet-trans : (h h' h'' : Handler J) → Quiet h h' → Quiet h' h'' → Quiet h h''
  Quiet-trans h h' h'' q r = record {
    count = r.count ∙ q.count;
    last = r.last ∙ q.last;
    sent = r.sent ∙ q.sent;
  }

module _ (os : Os) where
  pub send_signal-signals :
      (n : EventNotifier) (h : History) → signals (send_signal os n h).1 ≡ suc (signals h)
  unfolding send_signal
  send_signal-signals n h = ground arith

  non_blocking-signals :
      (s : ℤ) (h : History) → signals (set_ipv4_tcp_non_blocking os s h).1 ≡ signals h
  unfolding set_ipv4_tcp_non_blocking
  non_blocking-signals s h = ground arith

  sock-signals :
      (a : SockAddr) (h : History) → signals (get_ipv4_tcp_sock os (some a) h).1 ≡ signals h
  unfolding get_ipv4_tcp_sock
  sock-signals a h =
      let s = os.result h Call.socket in ground (arith, non_blocking-signals s (Call.socket ∷ h))

module _ (os : Os) {J : JobHeap compare_events} where
  dispatch_send-Quiet : (job : Event) (now : ℤ) (h : Handler J) → Quiet h (dispatch_send job now h)
  unfolding dispatch_send
  dispatch_send-Quiet job now h =
      elim (Bool-cases
        (ready_for_event (count_send job h) job.conn_id job.ms_from_last_event now)) [
          | inl ready ↦ rw ready (record { count = refl; last = refl; sent = refl })
          | inr waits ↦ rw waits (record { count = refl; last = refl; sent = refl })
        ]

  connect_to-Quiet :
      (o : Option ConnectionPair) (c now : ℤ) (h : Handler J) → Quiet h (connect_to os o c now h)
  unfolding connect_to connect_answer new_connection_update
  connect_to-Quiet none c now h = record { count = refl; last = refl; sent = refl }
  connect_to-Quiet (some pair) c now h = ground (arith, sock-signals os pair.src h.calls)

  pub dispatch_as-Quiet :
      (t : EventType) (job : Event) (now : ℤ) (h : Handler J) → Quiet h (dispatch_as os t job now h)
  unfolding dispatch_as
  dispatch_as-Quiet send job now h = dispatch_send-Quiet job now h
  dispatch_as-Quiet connect job now h = connect_to-Quiet _ job.conn_id now h
  dispatch_as-Quiet _ job now h = record { count = refl; last = refl; sent = refl }

module _ (os : Os) (inet : Inet) {J : JobHeap compare_events} where
  accept_named-Quiet :
      (o : Option ℤ) (fd now : ℤ) (h : Handler J) → Quiet h (accept_named o fd now h).0
  unfolding accept_named new_connection_update
  accept_named-Quiet none fd now h = record { count = refl; last = refl; sent = refl }
  accept_named-Quiet (some c) fd now h = record { count = refl; last = refl; sent = refl }

  pub accept_new_connection-Quiet :
      (fd now : ℤ) (h : Handler J) → Quiet h (accept_new_connection os inet fd now h).0
  unfolding accept_new_connection get_conn_string
  accept_new_connection-Quiet fd now h =
      let up = set_up os inet fd h in
      let quiet =
        non_blocking-signals os (os.result h.calls (Call.accept fd)) (Call.accept fd ∷ h.calls) in
      let h' = record h { calls = Call.getsockname fd ∷ up.1 } in
      let after : Quiet h h' = record { count = refl; last = refl; sent = quiet } in
      elim (Bool-cases (ltb_ℤ up.0 (pos 0))) [
        | inl low ↦ rw low (record { count = refl; last = refl; sent = quiet })
        | inr ok ↦ elim (Bool-cases (os.result up.1 (Call.getsockname fd) ==ℤ negsuc 0)) [
          | inl bad ↦ rw (ok, bad) after
          | inr good ↦
              rw (ok, good)
                (Quiet-trans h h' _ after (
                  accept_named-Quiet (find (name_of os inet fd h) h.str_to_conn_id)
                    (os.result h.calls (Call.accept fd)) now h'))
        ]
      ]
