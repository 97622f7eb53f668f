-- ===== src/Replay/Order.antt =====
-- src/fileWorker.cpp and src/eventHandler.cpp: the order of the times of the events that are taken from the queue.
use mathlib.Core.Path.{subst}
use mathlib.Core.List.{
  Mem, mem-append, mem-append_left, mem-cons, mem-cons_self, mem-cons_of_mem, not-mem-nil,
}
use mathlib.Core.List.Perm
use mathlib.Core.Logic.Or
use native.Mathlib.Bridge.{le_prop}
use mimic_generator.Common.{
  ℕ, suc, ◌≡◌, sym, ◌⊎◌, inl, inr, some, List, [], ◌∷◌, ◌++◌, map, All, ltb, Bool-cases,
}
use mimic_generator.Common.Int.{◌≤ℤ◌}
use mimic_generator.Event.{Event}
use mimic_generator.EventHeap.{compare_events, next_event}
use mimic_generator.EventHeap.Contract.{JobHeap}
use mimic_generator.EventHeap.Order.{Earliest, IsOrdered, Pops, next_event-Pops}
use mimic_generator.EventHandler.Loop.{max_queued_file_events}
use mimic_generator.EventQueue.Spec.{push}
use mimic_generator.Os.{Os}
use mimic_generator.Connections.{Inet}
use mimic_generator.FileWorker.Events.{Numbers}
use mimic_generator.Replay.{
  State, queue_event, Step, queues, loads, enters_loop, handles, fails, looks, ends, defers,
  looks_again, sleeps, accepts, Starts, Reach, start, later,
}
use mimic_generator.Replay.Delivery.{All-snoc, load_events-out, got-queued}

-- None of the events is after `e`.
abbrev pub Latest : Event → List Event → Type 0
Latest e xs = All (λ x. x.ms_from_start ≤ℤ e.ms_from_start) xs

IsOrdered-snoc :
    (xs : List Event) (e : Event) → IsOrdered xs → Latest e xs → IsOrdered (xs ++ e ∷ [])
IsOrdered-snoc [] e o latest = ((λ x m. absurd (not-mem-nil m)), tt)
IsOrdered-snoc (y ∷ xs) e (first, o) (le, latest) = (
  λ x m.
      Or.elim le_prop (mem-append.0 m) (first x)
        (λ at. Or.elim le_prop (mem-cons.0 at) (λ same. rw same le) (λ n. absurd (not-mem-nil n))),
  IsOrdered-snoc xs e o latest,
)

IsOrdered-prefix : (xs ys : List Event) → IsOrdered (xs ++ ys) → IsOrdered xs
IsOrdered-prefix [] ys o = tt
IsOrdered-prefix (x ∷ xs) ys (first, o) =
    ((λ y m. first y (mem-append_left ys m)), IsOrdered-prefix xs ys o)

All-map {ℓ κ κ'} :
    {A : Type ℓ} (P : A → Type κ) (Q : A → Type κ') (f : (a : A) → P a → Q a) (xs : List A)
    → All P xs
    → All Q xs
All-map P Q f [] all = tt
All-map P Q f (x ∷ xs) (p, all) = (f x p, All-map P Q f xs all)

-- What has been queued is in the order of the times, and nothing in the heap is before any of it.
record Queues (J : JobHeap compare_events) (out : List Event) (heap : J.Heap) : Type 0 where
  ordered : IsOrdered out
  before : All (λ e. Earliest e (J.contents heap)) out

-- What the heap has got is not before anything that has been queued.
abbrev pub Adds : (J : JobHeap compare_events) → List Event → (heap heap' : J.Heap) → Type 0
Adds J out heap heap' =
    (x : Event) → Mem x (J.contents heap') → Mem x (J.contents heap) ⊎ Latest x out

module _ {J : JobHeap compare_events} where
  Queues-push :
      (out : List Event) (heap heap' : J.Heap) (e : Event)
      → Pops J heap (heap', some e)
      → Queues J out heap
      → Queues J (out ++ e ∷ []) heap'
  Queues-push out heap heap' e (p, first) q =
      let among : Mem e (J.contents heap) = (Perm.mem_iff p).1 mem-cons_self in
      let left =
        λ (x : Event) (m : Mem x (J.contents heap')). (Perm.mem_iff p).1 (mem-cons_of_mem e m) in
      record {
        ordered = IsOrdered-snoc out e q.ordered (
            All-map (λ x. Earliest x (J.contents heap)) (λ x. x.ms_from_start ≤ℤ e.ms_from_start)
              (λ x earliest. earliest e among) out q.before);
        before =
            All-snoc (λ x. Earliest x (J.contents heap')) out e
              (All-map (λ x. Earliest x (J.contents heap)) (λ x. Earliest x (J.contents heap'))
                (λ x earliest y m. earliest y (left y m)) out q.before)
              (λ y m. first y (left y m));
      }

  Queues-add :
      (out : List Event) (heap heap' : J.Heap)
      → Adds J out heap heap'
      → Queues J out heap
      → Queues J out heap'
  Queues-add out heap heap' adds q = record {
    ordered = q.ordered;
    before = by_events out q.before adds;
  }
    where
      by_events :
          (es : List Event)
          → All (λ e. Earliest e (J.contents heap)) es
          → ((x : Event) → Mem x (J.contents heap') → Mem x (J.contents heap) ⊎ Latest x es)
          → All (λ e. Earliest e (J.contents heap')) es
      by_events [] all late = tt
      by_events (e ∷ es) (first, all) late = (
        λ x m. elim (late x m) [ inl old ↦ first x old | inr (le, _) ↦ le ],
        by_events es all
            (λ x m. elim (late x m) [ inl old ↦ inl old | inr (_, latest) ↦ inr latest ]),
      )

-- Runs from an empty queue in which no event is loaded that is before one that has been queued.
pub data InOrder (os : Os) (inet : Inet) (numbers : Numbers) (to_get : ℕ)
    {J : JobHeap compare_events} : State J → Type 0 where
  begins : (s : State J) → Starts s → s.worker.out_events ≡ [] → InOrder os inet numbers to_get s
  goes_on :
      {s t : State J}
      → InOrder os inet numbers to_get s
      → Step os inet numbers to_get s t
      → Adds J s.worker.out_events s.worker.short_term_heap t.worker.short_term_heap
      → InOrder os inet numbers to_get t

module _ (os : Os) (inet : Inet) (numbers : Numbers) (to_get : ℕ) {J : JobHeap compare_events} where
  abbrev Holds : State J → Type 0
  Holds s = Queues J s.worker.out_events s.worker.short_term_heap

  queue_event-Holds :
      (heap : J.Heap) (e : Event) (s : State J)
      → next_event J s.worker.short_term_heap ≡ (heap, some e)
      → Holds s
      → Holds (queue_event heap e s)
  unfolding push
  queue_event-Holds heap e s got q =
      let pops =
        subst (Pops J s.worker.short_term_heap) got (next_event-Pops J s.worker.short_term_heap) in
      let q' = Queues-push s.worker.out_events s.worker.short_term_heap heap e pops q in
      elim (Bool-cases (ltb max_queued_file_events (suc s.worker.file_events_added_count))) [
        | inl full ↦ rw full q'
        | inr more ↦ rw more q'
      ]

  Step-Holds :
      {s t : State J}
      → Step os inet numbers to_get s t
      → Adds J s.worker.out_events s.worker.short_term_heap t.worker.short_term_heap
      → Holds s
      → Holds t
  Step-Holds {s} (queues heap e loaded next k) adds q = rw k (queue_event-Holds heap e s next q)
  Step-Holds {s} (loads k w at e) adds q =
      let same = load_events-out os inet numbers to_get k s.worker w at in
      let q' =
        Queues-add s.worker.out_events s.worker.short_term_heap w.short_term_heap (rw e at adds)
          q in
      rw e (subst (λ out. Queues J out w.short_term_heap) (sym same) q')
  Step-Holds (enters_loop at k) adds q = rw k q
  Step-Holds (handles p e at due got k) adds q = rw k q
  Step-Holds (fails p at due got k) adds q = rw k q
  Step-Holds (looks at k) adds q = rw k q
  Step-Holds (ends at early k) adds q = rw k q
  Step-Holds (defers n now h at le run k) adds q = rw k q
  Step-Holds (looks_again at k) adds q = rw k q
  Step-Holds (sleeps at k) adds q = rw k q
  Step-Holds (accepts n p h at run k) adds q = rw k q

  InOrder-Holds : {s : State J} → InOrder os inet numbers to_get s → Holds s
  InOrder-Holds (begins s i empty) = rw empty (record { ordered = tt; before = tt })
  InOrder-Holds (goes_on r st adds) = Step-Holds st adds (InOrder-Holds r)

  InOrder-Reach : {s : State J} → InOrder os inet numbers to_get s → Reach os inet numbers to_get s
  InOrder-Reach (begins s i empty) = start s i
  InOrder-Reach (goes_on r st adds) = later (InOrder-Reach r) st

  -- If no event is ever loaded that is before one that has been queued, then the handler takes the
  -- events from the queue, to dispatch them, in the order of their times, however the steps of the two threads are interleaved.
  pub got-IsOrdered :
      {s : State J} → InOrder os inet numbers to_get s → IsOrdered (map (λ x. x.0) s.got)
  got-IsOrdered {s} r =
      let (all, on_time) = got-queued os inet numbers to_get (InOrder-Reach r) in
      IsOrdered-prefix (map (λ x. x.0) s.got) s.handler.incoming_file_events
        (subst IsOrdered (sym all) (InOrder-Holds r).ordered)
