-- ===== src/EventHandler/Earlier.antt =====
-- src/eventHandler-old.cpp: an earlier version of the class, where an ACCEPT event registers a
-- connection and no epoll is used. Its readyForEvent and newConnectionUpdate are those of
-- src/eventHandler.cpp.
use mimic_generator.Common.{
  ℕ, zero, suc, ◌<◌, ◌≡◌, ◌≢◌, refl, sym, ap, inl, inr, true, false, ◌&&◌, Option, none, some, [],
  ◌∷◌, arith, ◌>>=◌, if◌then◌else◌, Bool-cases, length, All,
}
use mathlib.Core.Path.{subst}
use mimic_generator.Common.Int.{ℤ, pos, ◌+ℤ◌, ◌≤ℤ◌, ◌-ℤ◌, leb_ℤ, ltb_ℤ, to_int}
use mimic_generator.Common.Maps.{find, find_or, find-insert_self, insert, int_eq}
use mimic_generator.Event.{Event, EventType, accept, connect, recv, wait, send, srv_start, srv_end}
use mimic_generator.EventHeap.{compare_events, next_event}
use mimic_generator.EventHeap.Contract.{JobHeap}
use mimic_generator.EventQueue.Spec.{Fifo, pop, next_time}
use mimic_generator.Os.{Os}
use mimic_generator.EventHandler.{Handler, new_connection_update, ready_for_event}
use mimic_generator.EventHandler.Dispatch.{dispatch_send, connect_to}
use mimic_generator.EventHandler.Dispatch
use mimic_generator.EventHandler.Loop
use mimic_generator.EventHandler.Loop.{count_file_event, wake_file_worker}
use mimic_generator.EventHandler.FileEvents.{is_due, handle, handle-incoming}

-ℤ_self : (a : ℤ) → a -ℤ a ≡ pos 0
unfolding ◌-ℤ◌
-ℤ_self a = ground arith

module _ {J : JobHeap compare_events} where
  -- The connection has the socket, and is ready for an event after `delta`.
  abbrev pub IsAccepted : (conn_id sockfd delta now : ℤ) → Handler J → Type 0
  IsAccepted conn_id sockfd delta now h =
      (find conn_id h.conn_to_sockfd_id_map ≡ some sockfd)
      × (ready_for_event h conn_id delta now ≡ true)

  update-IsAccepted :
      (fd c delta now : ℤ) (h : Handler J)
      → delta ≤ℤ pos 0
      → IsAccepted c fd delta now (new_connection_update fd c now h)
  unfolding new_connection_update ready_for_event
  update-IsAccepted fd c delta now h soon =
      let late : ltb_ℤ (now -ℤ now) delta ≡ false = ground (arith, -ℤ_self now) in
      (
        find-insert_self c fd h.conn_to_sockfd_id_map,
        rw
            (
              find-insert_self c fd h.conn_to_sockfd_id_map,
              find-insert_self c (pos 0) h.conn_to_waiting_to_recv,
              find-insert_self c (pos 0) h.conn_to_waiting_to_send,
              find-insert_self c now h.conn_to_last_completed_event,
              late,
            )
            refl,
      )

module _ (os : Os) {J : JobHeap compare_events} where
  unfoldable pub dispatch_as : EventType → Event → (now : ℤ) → Handler J → Handler J
  dispatch_as accept job now h = new_connection_update job.sockfd job.conn_id now h
  dispatch_as wait job now h =
      let waiting = find_or (pos 0) job.conn_id h.conn_to_waiting_to_recv in
      record h {
        conn_to_waiting_to_recv =
            insert job.conn_id (to_int (waiting +ℤ job.value)) h.conn_to_waiting_to_recv;
      }
  dispatch_as recv job now h = h
  dispatch_as connect job now h =
      connect_to os (find job.conn_id h.conn_id_to_connection_map) job.conn_id now h
  dispatch_as send job now h = dispatch_send job now h
  dispatch_as srv_start job now h = h
  dispatch_as srv_end job now h = h
  dispatch_as _ job now h = h

  unfoldable pub dispatch : Event → (now : ℤ) → Handler J → Handler J
  dispatch job now h = dispatch_as job.type job now h

  -- As in Dispatch, with fuel.
  unfoldable pub check_deferred : ℕ → (now : ℤ) → Handler J → Option (Handler J)
  check_deferred zero now h = none
  check_deferred (suc k) now h =
      let (heap, e) = next_event J h.wait_heap in
      elim e [
        | none ↦ some (record h { wait_heap = heap })
        | some job ↦ check_deferred k now (dispatch job now (record h { wait_heap = heap }))
      ]

  -- The inner loop of `loop`, as in Loop.
  unfoldable pub file_events : ℕ → (next now : ℤ) → Handler J → Option (ℤ × Handler J)
  file_events zero next now h = none
  file_events (suc k) next now h =
      let (queue, job) = pop h.incoming_file_events in
      let rest : Option (ℤ × Handler J) = elim job [
        | some e ↦
            let h =
              dispatch e now (count_file_event os (record h { incoming_file_events = queue })) in
            file_events k (next_time h.incoming_file_events) now h
        | none ↦ file_events k next now h
      ] in
      if leb_ℤ next now && leb_ℤ (pos 0) next then rest else some (next, h)

  -- A round of `loop`; the clock is read as `later`, and `now` is what the round before has read.
  unfoldable pub loop_round : ℕ → (next now later : ℤ) → Handler J → Option (ℤ × Handler J)
  loop_round k next_event_time now later h = do
    (next_event_time, h) ← file_events k next_event_time now h
    h ← check_deferred k later (wake_file_worker h)
    some (
      if ltb_ℤ next_event_time (pos 0) then next_time h.incoming_file_events else next_event_time,
      h,
    )

  dispatch_as-same :
      (t : EventType) (job : Event) (now : ℤ) (h : Handler J)
      → t ≢ accept
      → dispatch_as t job now h ≡ Dispatch.dispatch_as os t job now h
  unfolding dispatch_as Dispatch.dispatch_as
  dispatch_as-same accept job now h other = absurd (other refl)
  dispatch_as-same _ job now h other = refl

  Same : ℕ → ℤ → Handler J → Fifo → Type 0
  Same k now h q =
      file_events k (next_time h.incoming_file_events) now h
      ≡ Loop.file_events os k (next_time h.incoming_file_events) now h

  round :
      (k : ℕ) (now : ℤ) (q : Fifo) (h : Handler J)
      → All (λ e. e.type ≢ accept) q
      → length q < k
      → Same k now (record h { incoming_file_events = q }) q
  unfolding Same file_events Loop.file_events next_time pop dispatch Dispatch.dispatch
  round zero now q h others lt = absurd (omega arith)
  round (suc k) now [] h others lt = ground arith
  round (suc k) now (e ∷ q) h (other, others) lt = elim (Bool-cases (is_due now e.ms_from_start)) [
    | inl late ↦
        let h₁ = count_file_event os (record h { incoming_file_events = q }) in
        let t = handle os now e (record h { incoming_file_events = e ∷ q }) in
        let left = handle-incoming os now e (record h { incoming_file_events = e ∷ q }) q refl in
        let others' = subst (All (λ e. e.type ≢ accept)) (sym left) others in
        rw late (
          subst
            (λ x.
              file_events k (next_time x.incoming_file_events) now x
              ≡ Loop.file_events os k (next_time t.incoming_file_events) now t)
            (sym (dispatch_as-same e.type e now h₁ other))
            (round k now t.incoming_file_events t others' (rw left (omega arith))))
    | inr early ↦ rw early refl
  ]

  -- The earlier version handles the file events of a round as the present one does if none of the
  -- events in the queue is an ACCEPT.
  pub file_events-same :
      (k : ℕ) (now : ℤ) (h : Handler J)
      → All (λ e. e.type ≢ accept) h.incoming_file_events
      → length h.incoming_file_events < k
      → file_events k (next_time h.incoming_file_events) now h
        ≡ Loop.file_events os k (next_time h.incoming_file_events) now h
  unfolding Same
  file_events-same k now h others lt = round k now h.incoming_file_events h others lt

  -- In the earlier version an ACCEPT gives its connection the socket of the event, with nothing to
  -- wait for: an event of the connection that is dispatched at the same time is ready, if its delay
  -- after the event before it is 0 or less.
  pub dispatch-accept_ready :
      (job : Event) (delta now : ℤ) (h : Handler J)
      → job.type ≡ accept
      → delta ≤ℤ pos 0
      → IsAccepted job.conn_id job.sockfd delta now (dispatch job now h)
  unfolding dispatch dispatch_as
  dispatch-accept_ready job delta now h is soon =
      subst (IsAccepted job.conn_id job.sockfd delta now)
        (sym (ap (λ t. dispatch_as t job now h) is))
        (update-IsAccepted job.sockfd job.conn_id delta now h soon)
