-- ===== src/Replay/Delivery.antt =====
-- src/fileWorker.cpp and src/eventHandler.cpp: what becomes of the events that the file thread adds to
-- the queue.
use mathlib.Core.List.{map-append, append_assoc}
use mathlib.Core.Path.{subst}
use mimic_generator.Common.{
  ℕ, suc, ◌≡◌, ◌≢◌, refl, sym, ap, ◌∙◌, inl, inr, true, some, List, [], ◌∷◌, ◌++◌, map, All, arith,
  ltb, Bool-cases, if◌then◌else◌,
}
use mimic_generator.Common.Int.{ℤ, pos, ◌≤ℤ◌, leb_ℤ, ltb_ℤ}
use mimic_generator.Event.{Event}
use mimic_generator.EventHeap.{compare_events}
use mimic_generator.EventHeap.Contract.{JobHeap}
use mimic_generator.EventQueue.Spec.{Fifo, push, pop, pop-some, next_time}
use mimic_generator.Os.{Os}
use mimic_generator.Connections.{Inet}
use mimic_generator.EventHandler.Loop.{max_queued_file_events, count_file_event}
use mimic_generator.EventHandler.FileEvents.{is_due, count_file_event-incoming}
use mimic_generator.EventHandler.Incoming.{
  dispatch-incoming, wake_file_worker-incoming, check_deferred-incoming, poll_connections-incoming,
}
use mimic_generator.FileWorker.Events.{Numbers, FileWorker, load_events_up_to}
use mimic_generator.FileWorker.Keeps.{load_events-keeps}
use mimic_generator.Replay.{
  enters, enters_loop, tests, dispatched, State, queue_event, handle_event, Step, queues, loads,
  handles, fails, looks, ends, defers, looks_again, sleeps, accepts, Reach, start, later,
}

-- A time that is one is that of the next event of the queue.
abbrev pub Front : ℤ → Fifo → Type 0
Front next q = leb_ℤ (pos 0) next ≡ true → next_time q ≡ next

Front-push : (next : ℤ) (q : Fifo) (e : Event) → Front next q → Front next (push q e)
unfolding next_time push
Front-push next [] e front is = let at = front is in ground arith
Front-push next (x ∷ q) e front is = front is

pub All-snoc {ℓ κ} :
    {A : Type ℓ} (P : A → Type κ) (xs : List A) (a : A) → All P xs → P a → All P (xs ++ a ∷ [])
All-snoc P [] a all p = (p, tt)
All-snoc P (x ∷ xs) a (px, all) p = (px, All-snoc P xs a all p)

abbrev OnTime : Event × ℤ → Type 0
OnTime (e, now) = is_due now e.ms_from_start ≡ true

-- What the handler has got is the front of what has been queued, at a time that has come, and a time that the
-- handler holds at a test is that of the next event.
pub record Delivers {J : JobHeap compare_events} (s : State J) : Type 0 where
  pub order : map (λ x. x.0) s.got ++ s.handler.incoming_file_events ≡ s.worker.out_events
  pub on_time : All OnTime s.got
  pub front :
      s.place ≢ dispatched
      → s.place ≢ enters
      → Front s.next_event_time s.handler.incoming_file_events

-- The time is read again if none was found before.
rereads-Front :
    (next : ℤ) (q : Fifo)
    → Front next q
    → Front (if ltb_ℤ next (pos 0) then next_time q else next) q
rereads-Front next q front = elim (Bool-cases (ltb_ℤ next (pos 0))) [
  | inl none_found ↦ rw none_found (λ is. refl)
  | inr found ↦ rw found front
]

due-pos : (now next : ℤ) → is_due now next ≡ true → leb_ℤ (pos 0) next ≡ true
due-pos now next due = ground arith

Front-pop :
    (now next : ℤ) (q : Fifo)
    → is_due now next ≡ true
    → Front next q
    → (e : Event) × (rest : Fifo) × (pop q ≡ (rest, some e)) × (e.ms_from_start ≡ next)
unfolding pop next_time
Front-pop now next [] due front = let at = front (due-pos now next due) in absurd (ground arith)
Front-pop now next (e ∷ q) due front = (e, q, refl, front (due-pos now next due))

on_time_bounds : (now t : ℤ) → is_due now t ≡ true → (pos 0 ≤ℤ t) × (t ≤ℤ now)
on_time_bounds now t due = ground arith

all_on_time :
    (xs : List (Event × ℤ))
    → All OnTime xs
    → All (λ x. (pos 0 ≤ℤ x.0.ms_from_start) × (x.0.ms_from_start ≤ℤ x.1)) xs
all_on_time [] all = tt
all_on_time (x ∷ xs) (p, all) = (on_time_bounds x.1 x.0.ms_from_start p, all_on_time xs all)

module _ (os : Os) (inet : Inet) (numbers : Numbers) (to_get : ℕ) {J : JobHeap compare_events} where
  pub load_events-out :
      (k : ℕ) (w w' : FileWorker J)
      → load_events_up_to numbers to_get k w ≡ some w'
      → w'.out_events ≡ w.out_events
  load_events-out k w w' e =
      load_events-keeps numbers (λ x. x.out_events ≡ w.out_events)
        (λ x x' heap ips ids conns out at. out ∙ at) (λ row x v ip a b c at. at) to_get k w w' e
        refl

  queue_event-Delivers :
      (heap : J.Heap) (e : Event) (s : State J) → Delivers s → Delivers (queue_event heap e s)
  unfolding push
  queue_event-Delivers heap e s d =
      let q = s.handler.incoming_file_events in
      let all = append_assoc (map (λ x. x.0) s.got) q (e ∷ []) in
      let order = sym all ∙ ap (λ xs. xs ++ e ∷ []) d.order in
      let front = λ (ne : s.place ≢ dispatched) (ni : s.place ≢ enters).
        Front-push s.next_event_time q e (d.front ne ni) in
      elim (Bool-cases (ltb max_queued_file_events (suc s.worker.file_events_added_count))) [
        | inl full ↦ rw full (record { order = order; on_time = d.on_time; front = front })
        | inr more ↦ rw more (record { order = order; on_time = d.on_time; front = front })
      ]

  handle_event-Delivers :
      (q : Fifo) (e : Event) (s : State J)
      → s.place ≡ tests
      → is_due s.now s.next_event_time ≡ true
      → s.handler.incoming_file_events ≡ e ∷ q
      → Delivers s
      → Delivers (handle_event os q e s)
  unfolding next_time
  handle_event-Delivers q e s at due is d =
      let h₀ = record s.handler { incoming_file_events = q } in
      let h₁ = count_file_event os h₀ in
      let left = dispatch-incoming os e s.now h₁ ∙ count_file_event-incoming os h₀ in
      let time : e.ms_from_start ≡ s.next_event_time =
        sym (ap next_time is)
        ∙ d.front (λ other. cc) (λ other. cc) (due-pos s.now s.next_event_time due) in
      record {
        order =
            rw (left, map-append (λ x. x.0) s.got ((e, s.now) ∷ []))
              (append_assoc (map (λ x. x.0) s.got) (e ∷ []) q
                ∙ ap (λ xs. map (λ x. x.0) s.got ++ xs) (sym is)
                ∙ d.order);
        on_time = All-snoc OnTime s.got (e, s.now) d.on_time (ap (is_due s.now) time ∙ due);
        front = λ ne ni. absurd (ne refl);
      }

  Step-Delivers : {s t : State J} → Step os inet numbers to_get s t → Delivers s → Delivers t
  Step-Delivers {s} (queues heap e loaded next k) d = rw k (queue_event-Delivers heap e s d)
  Step-Delivers {s} (loads k w at e) d = rw e (record {
    order = d.order ∙ sym (load_events-out k s.worker w at);
    on_time = d.on_time;
    front = d.front;
  })
  Step-Delivers (enters_loop at k) d =
      rw k (record { order = d.order; on_time = d.on_time; front = λ ne ni is. refl })
  Step-Delivers {s} (handles q e at due got k) d =
      rw k (handle_event-Delivers q e s at due (pop-some s.handler.incoming_file_events q e got) d)
  Step-Delivers (fails q at due got k) d = rw k d
  Step-Delivers (looks at k) d =
      rw k (record { order = d.order; on_time = d.on_time; front = λ ne ni is. refl })
  Step-Delivers {s} (ends at early k) d =
      let same = wake_file_worker-incoming s.handler in
      rw k (record {
        order = ap (λ q. map (λ x. x.0) s.got ++ q) same ∙ d.order;
        on_time = d.on_time;
        front = λ ne ni.
            subst (Front s.next_event_time) (sym same) (d.front (λ other. cc) (λ other. cc));
      })
  Step-Delivers {s} (defers n now h at le run k) d =
      let same = check_deferred-incoming os n now s.handler h run in
      rw k (record {
        order = ap (λ q. map (λ x. x.0) s.got ++ q) same ∙ d.order;
        on_time = d.on_time;
        front = λ ne ni.
            subst (Front s.next_event_time) (sym same) (d.front (λ other. cc) (λ other. cc));
      })
  Step-Delivers {s} (looks_again at k) d = rw k (record {
    order = d.order;
    on_time = d.on_time;
    front = λ ne ni.
        rereads-Front s.next_event_time s.handler.incoming_file_events
          (d.front (λ other. cc) (λ other. cc));
  })
  Step-Delivers (sleeps at k) d = rw k (record {
    order = d.order;
    on_time = d.on_time;
    front = λ ne ni. d.front (λ other. cc) (λ other. cc);
  })
  Step-Delivers {s} (accepts n p h at run k) d =
      let same = poll_connections-incoming os inet n s.now s.poll_handler s.handler p h run in
      rw k (record {
        order = ap (λ q. map (λ x. x.0) s.got ++ q) same ∙ d.order;
        on_time = d.on_time;
        front = λ ne ni.
            subst (Front s.next_event_time) (sym same) (d.front (λ other. cc) (λ other. cc));
      })

  pub Reach-Delivers : {s : State J} → Reach os inet numbers to_get s → Delivers s
  Reach-Delivers (start s i) = record {
    order = rw i.nothing_got (sym i.nothing_added);
    on_time = rw i.nothing_got tt;
    front = λ ne ni. absurd (ni i.place);
  }
  Reach-Delivers (later r st) = Step-Delivers st (Reach-Delivers r)

  -- However the steps of the two threads are interleaved: the events that the handler has taken
  -- from the queue are the first of those that the file thread has queued, each once and in their
  -- order, and the rest are in the queue. Each was taken, and dispatched for the first time, at a time
  -- `now` that was not before its own.
  pub got-queued :
      {s : State J}
      → Reach os inet numbers to_get s
      → (map (λ x. x.0) s.got ++ s.handler.incoming_file_events ≡ s.worker.out_events)
        × All (λ x. (pos 0 ≤ℤ x.0.ms_from_start) × (x.0.ms_from_start ≤ℤ x.1)) s.got
  got-queued {s} r = let d = Reach-Delivers r in (d.order, all_on_time s.got d.on_time)

  -- In every reachable state in which the handler's loop takes an event, the queue has one, and it is
  -- the one whose time the loop has tested. So the loop never turns round with nothing to take.
  pub tested-taken :
      {s : State J}
      → Reach os inet numbers to_get s
      → s.place ≡ tests
      → is_due s.now s.next_event_time ≡ true
      → (e : Event) × (q : Fifo) × (pop s.handler.incoming_file_events ≡ (q, some e))
        × (e.ms_from_start ≡ s.next_event_time)
  tested-taken {s} r at due =
      let d = Reach-Delivers r in
      Front-pop s.now s.next_event_time s.handler.incoming_file_events due
        (d.front (λ other. cc) (λ other. cc))
