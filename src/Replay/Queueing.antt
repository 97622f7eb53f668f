-- ===== src/Replay/Queueing.antt =====
-- src/fileWorker.cpp, `loop`: a round of the file thread's loop is a run of steps.
use mathlib.Core.Path.{subst}
use mathlib.Core.Option.{some-injective}
use mimic_generator.Common.{
  ℕ, zero, suc, ◌≡◌, refl, sym, ◌∙◌, inl, inr, true, Option, none, some, ltb, Bool-cases, bind-some,
  ◌>>=◌,
}
use mimic_generator.Common.Int.{negsuc}
use mimic_generator.Event.{Event}
use mimic_generator.EventHeap.{compare_events, next_event, next_event_time}
use mimic_generator.EventHeap.Contract.{JobHeap}
use mimic_generator.EventNotifier.{EventNotifier}
use mimic_generator.EventQueue.Spec.{Fifo, push}
use mimic_generator.Os.{Os, History}
use mimic_generator.Connections.{Inet}
use mimic_generator.EventHandler.Loop.{max_queued_file_events}
use mimic_generator.FileWorker.Events.{Numbers, FileWorker, load_events}
use mimic_generator.FileWorker.Queueing.{
  is_loaded, taken, turn, queue_events-turn, queue_events-stop,
}
use mimic_generator.FileWorker.Startup.{queue_events, read_signals, loop_round}
use mimic_generator.PollHandler.{PollHandler, Next, no_more, overrun, handed, wait_for_events}
use mimic_generator.PollHandler
use mimic_generator.Replay.{State, queue_event, queues, loads, Run, here, further}
use mimic_generator.Replay.Loops.{Run-trans}

module _ (os : Os) (inet : Inet) (numbers : Numbers) {J : JobHeap compare_events} where
  -- The worker has become `w`, and the handler's queue `q`.
  abbrev pub with_worker : FileWorker J → Fifo → State J → State J
  with_worker w q s = record s {
    worker = w;
    handler = record s.handler { incoming_file_events = q };
  }

  -- A run of steps leads to the worker `w`, and changes nothing else but the queue.
  abbrev pub Reaches : State J → FileWorker J → Type 0
  Reaches s w = (q : Fifo) × Run os inet numbers max_queued_file_events s (with_worker w q s)

  turn-Run :
      (k : ℕ) (s : State J) (w : FileWorker J) (r : J.Heap × Option Event)
      → is_loaded s.worker.last_event_time (next_event_time J s.worker.short_term_heap) ≡ true
      → next_event J s.worker.short_term_heap ≡ r
      → ((t : State J)
          → queue_events k (next_event_time J t.worker.short_term_heap) t.worker ≡ some w
          → Reaches t w)
      → turn k s.worker r ≡ some w
      → Reaches s w
  turn-Run k s w (heap, none) loaded got ih e = absurd (cc)
  turn-Run k s w (heap, some x) loaded got ih e =
      elim (Bool-cases (ltb max_queued_file_events (suc s.worker.file_events_added_count))) [
        | inl full ↦
            let added = push s.handler.incoming_file_events x in
            let st : Run os inet numbers max_queued_file_events s (queue_event heap x s) =
              further here (queues heap x loaded got refl) in
            (
              added,
              subst (λ v. Run os inet numbers max_queued_file_events s (with_worker v added s))
                  (some-injective _ _ (rw full at e)) (rw full at st),
            )
        | inr more ↦
            let added = push s.handler.incoming_file_events x in
            let st : Run os inet numbers max_queued_file_events s (queue_event heap x s) =
              further here (queues heap x loaded got refl) in
            let (q, run) = ih (with_worker (taken heap x s.worker) added s) (rw more at e) in
            (q, Run-trans os inet numbers max_queued_file_events (rw more at st) run)
      ]

  queue_events-Run :
      (k : ℕ) (s : State J) (w : FileWorker J)
      → queue_events k (next_event_time J s.worker.short_term_heap) s.worker ≡ some w
      → Reaches s w
  unfolding queue_events
  queue_events-Run zero s w e = absurd (cc)
  queue_events-Run (suc k) s w e =
      let next = next_event_time J s.worker.short_term_heap in
      elim (Bool-cases (is_loaded s.worker.last_event_time next)) [
        | inl loaded ↦
            turn-Run k s w (next_event J s.worker.short_term_heap) loaded refl
              (λ t. queue_events-Run k t w) (sym (queue_events-turn k next s.worker loaded) ∙ e)
        | inr stop ↦
            let same = some-injective _ _ (sym (queue_events-stop k next s.worker stop) ∙ e) in
            (
              s.handler.incoming_file_events,
              subst
                  (λ v.
                    Run os inet numbers max_queued_file_events s
                      (with_worker v s.handler.incoming_file_events s))
                  same here,
            )
      ]

  ended :
      {p p' : PollHandler} {h h' : History} {s : State J} {w w' : FileWorker J}
      → Reaches s w
      → ◌≡◌ {A = Option (PollHandler × History × FileWorker J)} (some (p, h, w)) (some (p', h', w'))
      → Reaches s w'
  ended {s} r e =
      subst (λ (x : PollHandler × History × FileWorker J). Reaches s x.2) (some-injective _ _ e) r

  -- A round of the file thread's loop that returns is a run of steps that changes nothing of the
  -- handler thread but its queue.
  pub worker_round-Run :
      (k : ℕ) (n : EventNotifier) (p : PollHandler) (h : History) (s : State J) (p' : PollHandler)
      (h' : History) (w' : FileWorker J)
      → loop_round os numbers k n p h s.worker ≡ some (p', h', w')
      → Reaches s w'
  unfolding loop_round load_events
  worker_round-Run k n p h s p' h' w' e =
      let next = next_event_time J s.worker.short_term_heap in
      let (w, at, e₁) = bind-some (queue_events k next s.worker) _ (p', h', w') e in
      let (q, calls) = wait_for_events os (negsuc 0) p h in
      by_answer w (queue_events-Run k s w at) (PollHandler.next_event os q calls) e₁
    where
      by_answer :
          (w : FileWorker J)
          → Reaches s w
          → (r : Next)
          → (elim r as (λ _. Option (PollHandler × History × FileWorker J)) [
            | no_more ↦
                some
                  ((wait_for_events os (negsuc 0) p h).0, (wait_for_events os (negsuc 0) p h).1, w)
            | overrun ↦ none
            | handed e q h' ↦
                (read_signals os k n q h')
                >>= (λ x. load_events numbers k w >>= (λ v. some (x.0, x.1, v)))
          ])
            ≡ some (p', h', w')
          → Reaches s w'
      by_answer w (q, run) no_more e = ended (q, run) e
      by_answer w (q, run) overrun e = absurd (cc)
      by_answer w (q, run) (handed x p₁ h₁) e =
          let (b, at, e₁) = bind-some (read_signals os k n p₁ h₁) _ (p', h', w') e in
          let (v, at₁, e₂) = bind-some (load_events numbers k w) _ (p', h', w') e₁ in
          let t = with_worker w q s in ended (q, further run (loads k v at₁ refl)) e₂
