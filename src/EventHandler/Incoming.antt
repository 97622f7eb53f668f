-- ===== src/EventHandler/Incoming.antt =====
-- src/eventHandler.cpp: what leaves the queue of file events as it is.
use mimic_generator.Common.{
  ℕ, ◌/◌, ◌≡◌, refl, ap, ◌∙◌, inl, inr, Option, none, some, ◌∷◌, ltb, Bool-cases,
}
use mimic_generator.Common.Int.{ℤ}
use mimic_generator.Common.Maps.{find, text_eq_instance}
use mimic_generator.Event.{Event}
use mimic_generator.EventHeap.{compare_events}
use mimic_generator.EventHeap.Contract.{JobHeap}
use mimic_generator.Os.{Os, Call}
use mimic_generator.Connections.{Inet}
use mimic_generator.EventHandler.{Handler, new_connection_update}
use mimic_generator.EventHandler.Dispatch.{
  dispatch, check_deferred, accept_named, accept_new_connection,
}
use mimic_generator.EventHandler.Loop.{max_queued_file_events, wake_file_worker, poll_connections}
use mimic_generator.EventHandler.FileEvents.{dispatch_as-incoming}
use mimic_generator.EventHandler.Names.{accept_cases, name_of, set_up}
use mimic_generator.EventHandler.Rounds.{check_deferred-keeps, poll_connections-keeps}
use mimic_generator.PollHandler.{PollHandler}

module _ {J : JobHeap compare_events} where
  pub wake_file_worker-incoming :
      (h : Handler J) → (wake_file_worker h).incoming_file_events ≡ h.incoming_file_events
  unfolding wake_file_worker
  wake_file_worker-incoming h =
      elim (Bool-cases (ltb (max_queued_file_events / 2) h.file_events_handled_count)) [
        | inl half ↦ rw half refl
        | inr less ↦ rw less refl
      ]

  accept_named-incoming :
      (o : Option ℤ) (fd now : ℤ) (h : Handler J)
      → (accept_named o fd now h).0.incoming_file_events ≡ h.incoming_file_events
  unfolding accept_named new_connection_update
  accept_named-incoming none fd now h = refl
  accept_named-incoming (some c) fd now h = refl

module _ (os : Os) {J : JobHeap compare_events} where
  pub dispatch-incoming :
      (e : Event) (now : ℤ) (h : Handler J)
      → (dispatch os e now h).incoming_file_events ≡ h.incoming_file_events
  unfolding dispatch
  dispatch-incoming e now h = dispatch_as-incoming os e.type e now h

  pub check_deferred-incoming :
      (k : ℕ) (now : ℤ) (h h' : Handler J)
      → check_deferred os k now h ≡ some h'
      → h'.incoming_file_events ≡ h.incoming_file_events
  check_deferred-incoming k now h h' e =
      check_deferred-keeps os (λ x. x.incoming_file_events ≡ h.incoming_file_events) (λ x w at. at)
        (λ job t x at. dispatch-incoming job t x ∙ at) k now h h' e refl

module _ (os : Os) (inet : Inet) {J : JobHeap compare_events} where
  accept-incoming :
      (fd now : ℤ) (h : Handler J)
      → (accept_new_connection os inet fd now h).0.incoming_file_events ≡ h.incoming_file_events
  accept-incoming fd now h = elim (accept_cases os inet fd now h) [
    | inl (calls, failed) ↦ ap (λ q. q.0.incoming_file_events) failed
    | inr (up, named) ↦
        ap (λ q. q.0.incoming_file_events) named
        ∙ accept_named-incoming (find (name_of os inet fd h) h.str_to_conn_id)
            (os.result h.calls (Call.accept fd)) now
            (record h { calls = Call.getsockname fd ∷ (set_up os inet fd h).1 })
  ]

  pub poll_connections-incoming :
      (k : ℕ) (now : ℤ) (p : PollHandler) (h : Handler J) (q : PollHandler) (h' : Handler J)
      → poll_connections os inet k now p h ≡ some (q, h')
      → h'.incoming_file_events ≡ h.incoming_file_events
  poll_connections-incoming k now p h q h' e =
      poll_connections-keeps os inet (λ x. x.incoming_file_events ≡ h.incoming_file_events)
        (λ a b c d x next at. at) (λ fd t x at. accept-incoming fd t x ∙ at) k now p h q h' e refl
