-- ===== src/EventHandler/Deferred.antt =====
-- src/eventHandler.cpp, `checkDeferred`: when its loop ends.
use mathlib.Core.List.{Mem, Mem-prop, mem-cons, mem-cons_self, mem-cons_of_mem, not-mem-nil, Perm}
use mathlib.Core.List.Perm
use mathlib.Core.Logic.Or
use mathlib.Core.Path.{subst}
use mimic_generator.Common.{
  ℕ, zero, suc, ◌≡◌, ◌≢◌, refl, sym, ap, ◌∙◌, ◌⊎◌, inl, inr, Option, none, some, ◌∷◌, Bool-cases,
}
use mimic_generator.Common.Int.{ℤ}
use mimic_generator.Common.Maps.{find, int_eq}
use mimic_generator.Event.{Event, send}
use mimic_generator.EventHeap.{compare_events, next_event}
use mimic_generator.EventHeap
use mimic_generator.EventHeap.Contract.{JobHeap}
use mimic_generator.EventHeap.Order.{Pops, next_event-Pops}
use mimic_generator.Os.{Os}
use mimic_generator.EventHandler.{Handler, ready_for_event}
use mimic_generator.EventHandler.Dispatch.{
  count_send, dispatch_send, dispatch_as, dispatch, check_deferred,
}
use mimic_generator.EventHandler.Waiting.{ready_for_event_iff}

none-some : (o : Option ℤ) (n : ℤ) → o ≡ none → ¬ (o ≡ some n)
none-some o n e e' = cc

module _ {J : JobHeap compare_events} where
  -- `dispatch_send` puts an event into the heap unless its connection has a socket.
  Puts : Event → Handler J → Handler J → Type 0
  Puts job h h' =
      (h'.conn_to_sockfd_id_map ≡ h.conn_to_sockfd_id_map)
      × (((h'.wait_heap ≡ h.wait_heap)
            × (fd : ℤ) × (find job.conn_id h.conn_to_sockfd_id_map ≡ some fd))
          ⊎ (h'.wait_heap ≡ J.push h.wait_heap job))

  dispatch_send-Puts :
      (job : Event) (now : ℤ) (h : Handler J) → Puts job h (dispatch_send job now h)
  unfolding dispatch_send Puts EventHeap.add_event
  dispatch_send-Puts job now h =
      elim (Bool-cases
        (ready_for_event (count_send job h) job.conn_id job.ms_from_last_event now)) [
          | inl ready ↦ rw ready (
            refl,
            inl (
                let (fd, at) =
                  ((ready_for_event_iff (count_send job h) job.conn_id job.ms_from_last_event now).0
                    ready).connected in
                (refl, fd, at)),
          )
          | inr waits ↦ rw waits (refl, inr refl)
        ]

  -- The heap holds SEND events only, and one of them is for a connection without a socket.
  pub record IsStuck (h : Handler J) : Type 0 where
    pub sends : (x : Event) → Mem x (J.contents h.wait_heap) → x.type ≡ send
    pub event : Event
    pub held : Mem event (J.contents h.wait_heap)
    pub unconnected : find event.conn_id h.conn_to_sockfd_id_map ≡ none

  -- The job comes out of the heap of `h`, which leaves `h'`, and is dispatched to `t`.
  IsStuck-next :
      (h h' t : Handler J) (job : Event)
      → h'.conn_to_sockfd_id_map ≡ h.conn_to_sockfd_id_map
      → Perm (J.contents h.wait_heap) (job ∷ J.contents h'.wait_heap)
      → Puts job h' t
      → IsStuck h
      → IsStuck t
  unfolding Puts
  IsStuck-next h h' t job same p (kept, inl (heap, fd, at)) stuck =
      let still =
        Or.elim Mem-prop (mem-cons.0 ((Perm.mem_iff p).0 stuck.held))
          (λ e. absurd (
            none-some (find stuck.event.conn_id h.conn_to_sockfd_id_map) fd stuck.unconnected
              (rw (e, sym same) at)))
          (λ m. m) in
      record {
        sends = λ x m. stuck.sends x ((Perm.mem_iff p).1 (mem-cons_of_mem job (rw (sym heap) m)));
        event = stuck.event;
        held = rw heap still;
        unconnected = rw (kept, same) stuck.unconnected;
      }
  IsStuck-next h h' t job same p (kept, inr heap) stuck =
      let all = Perm.trans p (Perm.symm (rw heap (J.contents-push h'.wait_heap job))) in
      record {
        sends = λ x m. stuck.sends x ((Perm.mem_iff all).1 m);
        event = stuck.event;
        held = (Perm.mem_iff all).0 stuck.held;
        unconnected = rw (kept, same) stuck.unconnected;
      }

module _ (os : Os) {J : JobHeap compare_events} where
  take :
      (h : Handler J) (heap : J.Heap) (o : Option Event) (now : ℤ)
      → Pops J h.wait_heap (heap, o)
      → IsStuck h
      → (job : Event) × (o ≡ some job)
        × IsStuck (dispatch os job now (record h { wait_heap = heap }))
  unfolding dispatch dispatch_as
  take h heap none now (gone, _) stuck =
      absurd (not-mem-nil {a = stuck.event} (rw (sym gone) stuck.held))
  take h heap (some job) now (p, first) stuck =
      let h' = record h { wait_heap = heap } in
      let sends = stuck.sends job ((Perm.mem_iff p).1 mem-cons_self) in
      (
        job,
        refl,
        subst (λ t. IsStuck (dispatch_as os t job now h')) (sym sends)
            (IsStuck-next h h' (dispatch_send job now h') job refl p (dispatch_send-Puts job now h')
              stuck),
      )

  next_round : ℕ → ℤ → J.Heap → Handler J → Option Event → Option (Handler J)
  next_round k now heap h none = some (record h { wait_heap = heap })
  next_round k now heap h (some job) =
      check_deferred os k now (dispatch os job now (record h { wait_heap = heap }))

  -- If the heap holds SEND events only, and one of them is for a connection without a socket, then
  -- the loop of `checkDeferred` does not end.
  pub check_deferred-loops :
      (k : ℕ) (now : ℤ) (h : Handler J)
      → IsStuck h
      → (r : Handler J) → check_deferred os k now h ≢ some r
  unfolding check_deferred next_round
  check_deferred-loops zero now h stuck r e = cc
  check_deferred-loops (suc k) now h stuck r e =
      let (heap, o) = next_event J h.wait_heap in
      let (job, found, stuck') = take h heap o now (next_event-Pops J h.wait_heap) stuck in
      check_deferred-loops k now (dispatch os job now (record h { wait_heap = heap })) stuck' r
        (sym (ap (next_round k now heap h) found) ∙ e)
