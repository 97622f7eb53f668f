-- ===== src/FileWorker/Queueing.antt =====
-- src/fileWorker.cpp, `loop`: the events that go from the heap to the queue.
use mathlib.Core.List.{
  Perm, append_assoc, append-nil, mem-append_left, mem-append_right, mem-cons_of_mem, not-mem-nil,
}
use mathlib.Core.List.Perm
use mimic_generator.Common.{
  ℕ, zero, suc, ◌+◌, ◌<◌, ◌≡◌, refl, sym, ◌∙◌, ◌⊎◌, inl, inr, Bool, true, false, ◌&&◌, Option, none,
  some, List, [], ◌∷◌, ◌++◌, arith, Bool-cases, if◌then◌else◌, ltb, length, All,
}
use mimic_generator.Common.Int.{ℤ, negsuc, leb_ℤ, ltb_ℤ}
use mimic_generator.Event.{Event}
use mimic_generator.EventHandler.Loop.{max_queued_file_events}
use mimic_generator.EventHeap.{compare_events, next_event, next_event_time}
use mimic_generator.EventHeap.Contract.{JobHeap}
use mimic_generator.EventHeap.Order.{
  Earliest, IsOrdered, Pops, next_event-Pops, next_event_time-next_event, length-Perm,
}
use mimic_generator.EventQueue.Spec.{push}
use mimic_generator.FileWorker.Events.{FileWorker}
use mimic_generator.FileWorker.Startup.{queue_events}

-- The time is one, and the events up to it have been loaded.
abbrev pub is_loaded : (last next : ℤ) → Bool
is_loaded last next = leb_ℤ next last && ltb_ℤ (negsuc 0) next

-- The events that follow `e`, and those that stay in the heap, were in the heap with `e`.
Earliest-split :
    (e : Event) {all left rest es : List Event}
    → Perm all (e ∷ left)
    → Perm left (es ++ rest)
    → Earliest e all
    → Earliest e es × Earliest e rest
Earliest-split e {rest} {es} p q first = (
  λ x m.
      first x
        ((Perm.mem_iff p).1 (mem-cons_of_mem e ((Perm.mem_iff q).1 (mem-append_left rest m)))),
  λ x m.
      first x ((Perm.mem_iff p).1 (mem-cons_of_mem e ((Perm.mem_iff q).1 (mem-append_right es m)))),
)

module _ {J : JobHeap compare_events} where
  -- The events `es` have gone from the heap to the queue.
  pub record Queued (w w' : FileWorker J) (es : List Event) : Type 0 where
    pub sent : w'.out_events ≡ w.out_events ++ es
    pub split : Perm (J.contents w.short_term_heap) (es ++ J.contents w'.short_term_heap)
    pub ordered : IsOrdered es
    pub before : All (λ e. Earliest e (J.contents w'.short_term_heap)) es
    pub loaded : All (λ e. is_loaded w.last_event_time e.ms_from_start ≡ true) es
    pub last : w'.last_event_time ≡ w.last_event_time
    -- The loop has ended at its break, or at its test.
    pub end :
        ((w'.file_events_added_count ≡ 0)
          × (max_queued_file_events < w.file_events_added_count + length es))
        ⊎ ((w'.file_events_added_count ≡ w.file_events_added_count + length es)
            × (is_loaded w.last_event_time (next_event_time J w'.short_term_heap) ≡ false))

  abbrev pub taken : J.Heap → Event → FileWorker J → FileWorker J
  taken heap e w = record w {
    short_term_heap = heap;
    out_events = push w.out_events e;
    file_events_added_count = suc w.file_events_added_count;
  }

  -- One turn of the loop whose test holds, by what comes out of the heap.
  abbrev pub turn : ℕ → FileWorker J → J.Heap × Option Event → Option (FileWorker J)
  turn k w (heap, none) = none
  turn k w (heap, some e) =
      if ltb max_queued_file_events (suc w.file_events_added_count)
      then some (record (taken heap e w) { file_events_added_count = 0 })
      else queue_events k (next_event_time J heap) (taken heap e w)

  pub queue_events-turn :
      (k : ℕ) (next : ℤ) (w : FileWorker J)
      → is_loaded w.last_event_time next ≡ true
      → queue_events (suc k) next w ≡ turn k w (next_event J w.short_term_heap)
  unfolding queue_events
  queue_events-turn k next w now = rw now (by_parts (next_event J w.short_term_heap))
    where
      by_parts :
          (q : J.Heap × Option Event)
          → (elim q.1 as (λ _. Option (FileWorker J)) [
            | none ↦ none
            | some e ↦
                if ltb max_queued_file_events (suc w.file_events_added_count)
                then some (record (taken q.0 e w) { file_events_added_count = 0 })
                else queue_events k (next_event_time J q.0) (taken q.0 e w)
          ])
            ≡ turn k w q
      by_parts (heap, none) = refl
      by_parts (heap, some e) = refl

  pub queue_events-stop :
      (k : ℕ) (next : ℤ) (w : FileWorker J)
      → is_loaded w.last_event_time next ≡ false
      → queue_events (suc k) next w ≡ some w
  unfolding queue_events
  queue_events-stop k next w stop = rw stop refl

  Queued-one :
      (w : FileWorker J) (heap : J.Heap) (e : Event)
      → Pops J w.short_term_heap (heap, some e)
      → is_loaded w.last_event_time e.ms_from_start ≡ true
      → max_queued_file_events < suc w.file_events_added_count
      → Queued w (record (taken heap e w) { file_events_added_count = 0 }) (e ∷ [])
  unfolding push
  Queued-one w heap e (p, first) now full = record {
    sent = refl;
    split = p;
    ordered = (λ x m. absurd (not-mem-nil m), tt);
    before = (λ x m. first x ((Perm.mem_iff p).1 (mem-cons_of_mem e m)), tt);
    loaded = (now, tt);
    last = refl;
    end = inl (refl, omega arith);
  }

  Queued-more :
      (w : FileWorker J) (heap : J.Heap) (e : Event) (w' : FileWorker J) (es : List Event)
      → Pops J w.short_term_heap (heap, some e)
      → is_loaded w.last_event_time e.ms_from_start ≡ true
      → Queued (taken heap e w) w' es
      → Queued w w' (e ∷ es)
  unfolding push
  Queued-more w heap e w' es (p, first) now q =
      let (first', first'') = Earliest-split e p q.split first in
      record {
        sent = q.sent ∙ append_assoc w.out_events (e ∷ []) es;
        split = Perm.trans p (Perm.cons e q.split);
        ordered = (first', q.ordered);
        before = (first'', q.before);
        loaded = (now, q.loaded);
        last = q.last;
        end = elim q.end [
          | inl (reset, full) ↦ inl (reset, omega arith)
          | inr (count, stop) ↦ inr (omega (arith, count), stop)
        ];
      }

  shorter :
      (k : ℕ) (w : FileWorker J) (heap : J.Heap) (e : Event)
      → Pops J w.short_term_heap (heap, some e)
      → length (J.contents w.short_term_heap) < suc k
      → length (J.contents (taken heap e w).short_term_heap) < k
  shorter k w heap e (p, first) enough = omega (arith, length-Perm p)

  Returns : ℕ → FileWorker J → Type 0
  Returns k w =
      (w' : FileWorker J) × (es : List Event) × (queue_events k
          (next_event_time J w.short_term_heap) w
        ≡ some w')
      × Queued w w' es

  turn-Queued :
      (k : ℕ) (w : FileWorker J) (r : J.Heap × Option Event)
      → Pops J w.short_term_heap r
      → is_loaded w.last_event_time (elim r.1 [ none ↦ negsuc 0 | some e ↦ e.ms_from_start ]) ≡ true
      → ((v : FileWorker J) → length (J.contents v.short_term_heap) < k → Returns k v)
      → length (J.contents w.short_term_heap) < suc k
      → (w' : FileWorker J) × (es : List Event) × (turn k w r ≡ some w') × Queued w w' es
  unfolding Returns
  turn-Queued k w (heap, none) pops now rest enough = absurd (ground arith)
  turn-Queued k w (heap, some e) pops now rest enough =
      elim (Bool-cases (ltb max_queued_file_events (suc w.file_events_added_count))) [
        | inl full ↦ (
          record (taken heap e w) { file_events_added_count = 0 },
          e ∷ [],
          rw full refl,
          Queued-one w heap e pops now (ground arith),
        )
        | inr more ↦
            let (w', es, run, q) = rest (taken heap e w) (shorter k w heap e pops enough) in
            (w', e ∷ es, rw more run, Queued-more w heap e w' es pops now q)
      ]

  -- With more fuel than there are events in the heap, the loop returns. The events that it has moved
  -- from the heap to the end of the queue are in the order of their times, none of those that are left
  -- is before one of them, and their times are from 0 to that of the last event that was loaded. The
  -- loop ends where no such event is left, or, with the count set to 0, when the count has passed
  -- 1000000.
  pub queue_events-Queued :
      (k : ℕ) (w : FileWorker J)
      → length (J.contents w.short_term_heap) < k
      → (w' : FileWorker J) × (es : List Event) × (queue_events k
            (next_event_time J w.short_term_heap)
            w
          ≡ some w')
        × Queued w w' es
  unfolding Returns
  queue_events-Queued zero w enough = absurd (omega arith)
  queue_events-Queued (suc k) w enough =
      let heap = w.short_term_heap in
      let next = next_event_time J heap in
      elim (Bool-cases (is_loaded w.last_event_time next)) [
        | inl now ↦
            let (w', es, run, q) =
              turn-Queued k w (next_event J heap) (next_event-Pops J heap)
                (rw (next_event_time-next_event J heap) at now) (queue_events-Queued k) enough in
            (w', es, queue_events-turn k next w now ∙ run, q)
        | inr stop ↦ (
          w,
          [],
          queue_events-stop k next w stop,
          record {
            sent = sym (append-nil w.out_events);
            split = Perm.refl (J.contents heap);
            ordered = tt;
            before = tt;
            loaded = tt;
            last = refl;
            end = inr (omega arith, stop);
          },
        )
      ]
