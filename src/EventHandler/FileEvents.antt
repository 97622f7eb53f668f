-- ===== src/EventHandler/FileEvents.antt =====
-- src/eventHandler.cpp, `loop`: the file events that one round handles.
use mimic_generator.Common.{
  ℕ, zero, suc, ◌%◌, ◌<◌, ◌≡◌, refl, ap, ◌∙◌, inl, inr, Bool, ◌&&◌, not, Option, none, some, List,
  [], ◌∷◌, arith, Bool-cases, if◌then◌else◌, ◌==◌, length, drop,
}
use mathlib.Core.Path.{subst}
use mimic_generator.Common.Int.{ℤ, negsuc, pos, leb_ℤ}
use mimic_generator.Event.{Event, EventType, send, connect}
use mimic_generator.EventHeap.{compare_events}
use mimic_generator.EventHeap.Contract.{JobHeap}
use mimic_generator.EventQueue.Spec.{Fifo, pop, next_time}
use mimic_generator.Os.{Os}
use mimic_generator.Connections.{ConnectionPair}
use mimic_generator.Common.Maps.{int_eq}
use mimic_generator.EventHandler.{Handler, ready_for_event, new_connection_update}
use mimic_generator.EventHandler.Dispatch.{
  count_send, dispatch_send, connect_answer, connect_to, dispatch_as, dispatch,
}
use mimic_generator.EventHandler.Loop.{count_file_event, file_events}

-- The time has come, and is a time.
abbrev pub is_due : (now : ℤ) → ℤ → Bool
is_due now t = leb_ℤ t now && leb_ℤ (pos 0) t

-- The events at the front of the queue that are due.
abbrev pub due : (now : ℤ) → Fifo → List Event
due now [] = []
due now (e ∷ q) = if is_due now e.ms_from_start then e ∷ due now q else []

module _ (os : Os) {J : JobHeap compare_events} where
  dispatch_send-incoming :
      (job : Event) (now : ℤ) (h : Handler J)
      → (dispatch_send job now h).incoming_file_events ≡ h.incoming_file_events
  unfolding dispatch_send
  dispatch_send-incoming job now h =
      elim (Bool-cases
        (ready_for_event (count_send job h) job.conn_id job.ms_from_last_event now)) [
          | inl ready ↦ rw ready refl
          | inr waits ↦ rw waits refl
        ]

  connect_to-incoming :
      (o : Option ConnectionPair) (c now : ℤ) (h : Handler J)
      → (connect_to os o c now h).incoming_file_events ≡ h.incoming_file_events
  unfolding connect_to connect_answer new_connection_update
  connect_to-incoming none c now h = refl
  connect_to-incoming (some pair) c now h = ground arith

  pub dispatch_as-incoming :
      (t : EventType) (job : Event) (now : ℤ) (h : Handler J)
      → (dispatch_as os t job now h).incoming_file_events ≡ h.incoming_file_events
  unfolding dispatch_as
  dispatch_as-incoming send job now h = dispatch_send-incoming job now h
  dispatch_as-incoming connect job now h = connect_to-incoming _ job.conn_id now h
  dispatch_as-incoming _ job now h = refl

  pub count_file_event-incoming :
      (h : Handler J) → (count_file_event os h).incoming_file_events ≡ h.incoming_file_events
  unfolding count_file_event
  count_file_event-incoming h =
      let count = suc h.file_events_handled_count in
      elim (Bool-cases
        ((count % 100000 == 0) && not (h.last_event_count_when_requesting_for_more == count))) [
          | inl tells ↦ rw tells refl
          | inr quiet ↦ rw quiet refl
        ]

  -- One event is taken from the queue, counted and dispatched.
  abbrev pub handle : (now : ℤ) → Event → Handler J → Handler J
  handle now e h =
      dispatch os e now
        (count_file_event os (record h { incoming_file_events = (pop h.incoming_file_events).0 }))

  abbrev pub handle_all : (now : ℤ) → List Event → Handler J → Handler J
  handle_all now [] h = h
  handle_all now (e ∷ es) h = handle_all now es (handle now e h)

  pub handle-incoming :
      (now : ℤ) (e : Event) (h : Handler J) (q : Fifo)
      → h.incoming_file_events ≡ e ∷ q
      → (handle now e h).incoming_file_events ≡ q
  unfolding dispatch pop
  handle-incoming now e h q at =
      dispatch_as-incoming e.type e now _ ∙ count_file_event-incoming _ ∙ ap (λ x. (pop x).0) at

  Handles : ℕ → ℤ → Handler J → Fifo → Type 0
  Handles k now h q =
      let t = handle_all now (due now q) h in
      (file_events os k (next_time h.incoming_file_events) now h
        ≡ some (next_time t.incoming_file_events, t))
      × (t.incoming_file_events ≡ drop (length (due now q)) q)

  round :
      (k : ℕ) (now : ℤ) (q : Fifo) (h : Handler J)
      → length q < k
      → Handles k now (record h { incoming_file_events = q }) q
  unfolding Handles file_events next_time pop
  round zero now q h lt = absurd (omega arith)
  round (suc k) now [] h lt = (ground arith, refl)
  round (suc k) now (e ∷ q) h lt = elim (Bool-cases (is_due now e.ms_from_start)) [
    | inl late ↦
        let t = handle now e (record h { incoming_file_events = e ∷ q }) in
        let left = handle-incoming now e (record h { incoming_file_events = e ∷ q }) q refl in
        rw late (
          subst (Handles k now t) left
            (round k now t.incoming_file_events t (rw left (omega arith))))
    | inr early ↦ rw early (refl, refl)
  ]

  stale :
      (k : ℕ) (now : ℤ) (h : Handler J)
      → 0 < k
      → file_events os k (negsuc 0) now h ≡ some (negsuc 0, h)
  unfolding file_events
  stale zero now h lt = absurd (omega arith)
  stale (suc k) now h lt = ground arith

  -- With more fuel than there are events in the file queue, a round that starts with the time of the
  -- queue's first event, or with -1 where there is none, handles exactly the events at the front of
  -- the queue whose time is from 0 to now, in their order; the others stay in the queue, and the
  -- round returns the time of the first of them, or -1. A round that starts with -1, as one does where
  -- the queue was empty when its time was last read, handles no event, whatever the queue has now.
  pub file_events-due :
      (k : ℕ) (now : ℤ) (h : Handler J)
      → length h.incoming_file_events < k
      → (file_events os k (next_time h.incoming_file_events) now h
          ≡ some (
            next_time (handle_all now (due now h.incoming_file_events) h).incoming_file_events,
            handle_all now (due now h.incoming_file_events) h,
          ))
        × ((handle_all now (due now h.incoming_file_events) h).incoming_file_events
            ≡ drop (length (due now h.incoming_file_events)) h.incoming_file_events)
        × (file_events os k (negsuc 0) now h ≡ some (negsuc 0, h))
  unfolding Handles
  file_events-due k now h lt =
      let (returns, left) = round k now h.incoming_file_events h lt in
      (returns, left, stale k now h (omega arith))
