-- ===== src/EventHandler/Waiting.antt =====
-- src/eventHandler.cpp: which events are ready, and where `dispatch` puts what is to be sent.
use mimic_generator.Common.{
  ℕ, zero, suc, All, ◌+◌, ◌^◌, ◌≤◌, ◌<◌, ◌≡◌, refl, ap, ◌∙◌, ◌↔◌, inl, inr, true, false, Option,
  none, some, List, [], ◌∷◌, arith, Bool-cases,
}
use mimic_generator.Common.Int.{
  ℤ, pos, negsuc, ◌+ℤ◌, ◌-ℤ◌, ◌≤ℤ◌, ◌<ℤ◌, to_int, to_int-id, +ℤ_pos, ◌==ℤ◌, pos_part,
}
use mimic_generator.Common.Maps.{find, insert, find_or, find-insert, find-insert_self, int_eq}
use mimic_generator.Event.{Event, EventType, connect, send}
use mimic_generator.EventHeap.{compare_events}
use mimic_generator.EventHeap.Contract.{JobHeap}
use mimic_generator.Os.{Os}
use mimic_generator.Connections.{ConnectionPair}
use mimic_generator.EventHandler.{
  Handler, ready_for_event, new_connection_update, is_ready, is_waiting, is_early,
}
use mimic_generator.EventHandler.Dispatch.{
  connect_answer, connect_to, dispatch_send, dispatch_as, dispatch,
}

-- Nothing is outstanding.
abbrev pub Settled : Option ℤ → Type 0
Settled none = Unit
Settled (some n) = n ≤ℤ pos 0

abbrev pub Due : (delta now : ℤ) → Option ℤ → Type 0
Due delta now none = Unit
Due delta now (some t) = delta ≤ℤ now -ℤ t

Settled-iff : (o : Option ℤ) → (is_waiting o ≡ false) ↔ Settled o
Settled-iff none = ground arith
Settled-iff (some n) = ground arith

due_iff : (delta now : ℤ) (o : Option ℤ) → (is_early delta now o ≡ false) ↔ Due delta now o
due_iff delta now none = ground arith
due_iff delta now (some t) = ground arith

-- The code's rule for when an event of a connection may happen.
pub record IsReady (sockfd to_recv to_send last : Option ℤ) (delta now : ℤ) : Type 0 where
  pub connected : (fd : ℤ) × (sockfd ≡ some fd)
  pub received : Settled to_recv
  pub sent : Settled to_send
  pub due : Due delta now last

is_ready_iff :
    (o r s l : Option ℤ) (delta now : ℤ)
    → (is_ready o r s l delta now ≡ true) ↔ IsReady o r s l delta now
is_ready_iff none r s l delta now = (λ e. absurd (cc), λ q. absurd (ground (arith, q.connected.1)))
is_ready_iff (some fd) r s l delta now = (
  λ e. record {
    connected = (fd, refl);
    received = (Settled-iff r).0 (ground arith);
    sent = (Settled-iff s).0 (ground arith);
    due = (due_iff delta now l).0 (ground arith);
  },
  λ q.
      rw ((Settled-iff r).1 q.received, (Settled-iff s).1 q.sent, (due_iff delta now l).1 q.due)
        refl,
)

module _ {J : JobHeap compare_events} where
  -- `readyForEvent` holds exactly if the connection has a socket, no bytes to receive or to send
  -- are outstanding, and `delta` has passed since its last completed event, if it has one.
  pub ready_for_event_iff :
      (h : Handler J) (conn_id delta now : ℤ)
      → (ready_for_event h conn_id delta now ≡ true)
        ↔ IsReady
            (find conn_id h.conn_to_sockfd_id_map)
            (find conn_id h.conn_to_waiting_to_recv)
            (find conn_id h.conn_to_waiting_to_send)
            (find conn_id h.conn_to_last_completed_event)
            delta
            now
  unfolding ready_for_event
  ready_for_event_iff h conn_id delta now = is_ready_iff _ _ _ _ delta now

-- The bytes that a connection waits to send are from 0 to `bound`.
abbrev pub Below : ℕ → Option ℤ → Type 0
Below bound none = Unit
Below bound (some w) = (n : ℕ) × (w ≡ pos n) × (n ≤ bound)

Below-mono : (b c : ℕ) → b ≤ c → (o : Option ℤ) → Below b o → Below c o
Below-mono b c le none x = tt
Below-mono b c le (some w) (n, e, m) = (n, e, omega arith)

find_or-Below :
    (b : ℕ) (o : Option ℤ)
    → Below b o
    → (n : ℕ) × ((elim o [ none ↦ pos 0 | some v ↦ v ]) ≡ pos n) × (n ≤ b)
find_or-Below b none x = (0, refl, omega arith)
find_or-Below b (some w) x = x

is_ready_waiting :
    (o r l : Option ℤ) (delta now : ℤ) (n : ℕ)
    → is_ready o r (some (pos (suc n))) l delta now ≡ false
is_ready_waiting none r l delta now n = refl
is_ready_waiting (some fd) r l delta now n = ground arith

-- The bytes that wait after one more SEND.
now_waits :
    (b n : ℕ) (o : Option ℤ) (value : ℤ)
    → Below b o
    → value ≡ pos (suc n)
    → b + suc n < 2 ^ 31
    → (m : ℕ) × (to_int ((elim o [ none ↦ pos 0 | some v ↦ v ]) +ℤ value) ≡ pos (suc m))
      × (suc m ≤ b + suc n)
now_waits b n o value below e lt =
    let (m, at, le) = find_or-Below b o below in
    (
      m + n,
      rw (at, e, +ℤ_pos m (suc n)) (to_int-id (m + suc n) (omega arith) ∙ ap pos (omega arith)),
      omega arith,
    )

module _ {J : JobHeap compare_events} where
  abbrev pub Counted : ℕ → Handler J → Type 0
  Counted bound h = (c : ℤ) → Below bound (find c h.conn_to_waiting_to_send)

  Counted-insert :
      (b c : ℕ) (job : ℤ) (w : ℤ) (h : Handler J)
      → Counted b h
      → b ≤ c
      → Below c (some w)
      → (k : ℤ) → Below c (find k (insert job w h.conn_to_waiting_to_send))
  Counted-insert b c job w h counted le new k =
      rw (find-insert job k w h.conn_to_waiting_to_send) (elim (Bool-cases (job ==ℤ k)) [
        | inl same ↦ rw same new
        | inr other ↦ rw other (Below-mono b c le _ (counted k))
      ])

  dispatch_send-waits :
      (job : Event) (now : ℤ) (h : Handler J) (b n : ℕ)
      → Counted b h
      → job.value ≡ pos (suc n)
      → b + suc n < 2 ^ 31
      → ((dispatch_send job now h).send_req ≡ h.send_req)
        × Counted (b + suc n) (dispatch_send job now h)
  unfolding dispatch_send ready_for_event find_or
  dispatch_send-waits job now h b n counted e lt =
      let (m, at, le) =
        now_waits b n (find job.conn_id h.conn_to_waiting_to_send) job.value (counted job.conn_id) e
          lt in
      rw
        (
          at,
          find-insert_self job.conn_id (pos (suc m)) h.conn_to_waiting_to_send,
          is_ready_waiting (find job.conn_id h.conn_to_sockfd_id_map)
              (find job.conn_id h.conn_to_waiting_to_recv)
              (find job.conn_id h.conn_to_last_completed_event) job.ms_from_last_event now m,
        )
        (
          refl,
          Counted-insert b (b + suc n) job.conn_id (pos (suc m)) h counted (omega arith)
              (suc m, refl, le),
        )

-- The bytes that a dispatch adds to what waits to be sent.
abbrev pub sent_by : EventType → ℤ → ℕ
sent_by send value = pos_part value
sent_by _ value = 0

-- A SEND has something to send.
abbrev pub HasBytes : EventType → ℤ → Type 0
HasBytes send value = pos 0 <ℤ value
HasBytes _ value = Unit

abbrev pub total : List (Event × ℤ) → ℕ
total [] = 0
total ((e, now) ∷ es) = sent_by e.type e.value + total es

positive : (v : ℤ) → pos 0 <ℤ v → (n : ℕ) × (v ≡ pos (suc n)) × (pos_part v ≡ suc n)
positive (pos zero) lt = absurd (omega arith)
positive (pos (suc n)) lt = (n, refl, refl)
positive (negsuc n) lt = absurd (omega arith)

module _ (os : Os) {J : JobHeap compare_events} where
  -- Events that are dispatched in turn, each with the time of its dispatch.
  abbrev pub dispatch_all : List (Event × ℤ) → Handler J → Handler J
  dispatch_all [] h = h
  dispatch_all ((e, now) ∷ es) h = dispatch_all es (dispatch os e now h)

  Kept : ℕ → Handler J → Handler J → Type 0
  Kept b h h' = (h'.send_req ≡ h.send_req) × Counted b h'

  more : (b n : ℕ) (h : Handler J) → Counted b h → Counted (b + n) h
  more b n h counted c = Below-mono b (b + n) (omega arith) _ (counted c)

  connect_answer-Kept :
      (fd status c now : ℤ) (h : Handler J) (b : ℕ)
      → Counted b h
      → Kept b h (connect_answer os fd status c now h)
  unfolding connect_answer new_connection_update Kept
  connect_answer-Kept fd status c now h b counted = elim (Bool-cases (status ==ℤ negsuc 0)) [
    | inl failed ↦ rw failed (refl, counted)
    | inr ok ↦
        rw ok (refl, Counted-insert b b c (pos 0) h counted (omega arith) (0, refl, omega arith))
  ]

  connect_to-Kept :
      (o : Option ConnectionPair) (c now : ℤ) (h : Handler J) (b : ℕ)
      → Counted b h
      → Kept b h (connect_to os o c now h)
  unfolding connect_to Kept
  connect_to-Kept none c now h b counted = (refl, counted)
  connect_to-Kept (some pair) c now h b counted = connect_answer-Kept _ _ c now _ b counted

  dispatch_as-Kept :
      (t : EventType) (e : Event) (now : ℤ) (h : Handler J) (b : ℕ)
      → Counted b h
      → HasBytes t e.value
      → b + sent_by t e.value < 2 ^ 31
      → Kept (b + sent_by t e.value) h (dispatch_as os t e now h)
  unfolding dispatch_as Kept
  dispatch_as-Kept send e now h b counted bytes lt =
      let (n, v, p) = positive e.value bytes in
      rw p (dispatch_send-waits e now h b n counted v (omega arith))
  dispatch_as-Kept connect e now h b counted bytes lt =
      let pair = find e.conn_id h.conn_id_to_connection_map in
      let (same, counted') = connect_to-Kept pair e.conn_id now h b counted in
      (same, more b 0 (connect_to os pair e.conn_id now h) counted')
  dispatch_as-Kept _ e now h b counted bytes lt = (refl, more b 0 h counted)

  -- While the SEND events that are dispatched have a positive number of bytes, fewer than 2 ^ 31
  -- together with the bound `b` on what each connection waits to send already, none of them reaches
  -- the send queue.
  pub dispatch_all-send_req :
      (es : List (Event × ℤ)) (h : Handler J) (b : ℕ)
      → Counted b h
      → All (λ e. HasBytes e.0.type e.0.value) es
      → b + total es < 2 ^ 31
      → (dispatch_all es h).send_req ≡ h.send_req
  unfolding dispatch Kept
  dispatch_all-send_req [] h b counted bytes lt = refl
  dispatch_all-send_req ((e, now) ∷ es) h b counted bytes lt =
      let (same, counted') = dispatch_as-Kept e.type e now h b counted bytes.0 (omega arith) in
      dispatch_all-send_req es (dispatch os e now h) (b + sent_by e.type e.value) counted' bytes.1
        (omega arith)
      ∙ same
