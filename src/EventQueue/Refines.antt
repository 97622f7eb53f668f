-- ===== src/EventQueue/Refines.antt =====
-- The calls of an EventQueue, while the other thread waits, do what the abstract queue does.
use mimic_generator.Common.{
  ℕ, zero, List, get_elem?, ◌<◌, suc, ◌+◌, ◌-◌, ◌*◌, ◌≤◌, ◌⊎◌, ◌≡◌, refl, sym, ap, ◌∙◌, Option,
  none, some, [], ◌∷◌, ◌++◌, arith, length, length-map, length-take, length-append, map-drop,
  drop-append, get_elem?-drop, map-some-injective, map, Bool-cases, false, inl, inr, drop, take,
  ◌==◌,
}
use mathlib.Core.List.{map-append, append_assoc, append-nil}
use mimic_generator.Common.Int.{pos}
use mimic_generator.Event.{Event}
use mimic_generator.EventQueue.Machine.{
  Ptr, idle, add_load, Reply, event, no_event, time, returned, System, consume, consume_at, IsFresh,
  load, Reach,
}
use mimic_generator.EventQueue.Invariant.{Inv, IsGood}
use mimic_generator.EventQueue.Chain.{job_node, load-job}
use mimic_generator.EventQueue.Invariant.Consume.{load-divider, load-next, next-ne_null}
use mimic_generator.EventQueue.Reachable.{Reach-IsGood, length-got, divider-last, begins_add}
use mimic_generator.EventQueue.Calls.{
  finish_consume, add_event, get_event, next_event_time, finish-Finished,
}
use mimic_generator.EventQueue.Spec.{Fifo, push, pop, next_time}

-- The unread events of `s` are those of `q`.
abbrev pub Represents : System → Fifo → Type 0
Represents s q = map some s.sent ≡ s.got ++ map some q

-- What `getEvent` reports of a popped event.
abbrev pub reply : Option Event → Reply
reply none = no_event
reply (some e) = event (some e)

-- The nodes are the dummy, which `first` and the divider point to, and one for each unread event,
-- which holds it: all other addresses are unused.
abbrev pub Cleaned : System → Fifo → Type 0
Cleaned t q =
    (t.first ≡ t.divider)
    × (node : ℕ → Ptr) × (node 0 ≡ t.divider)
    × ((k : ℕ)
        → k < length q
        → (next : Ptr) × (load t.heap (node (suc k)) ≡ some (job_node (get_elem? q k) next)))
    × ((p : Ptr) → (t.heap p ≡ none) ⊎ ((i : ℕ) × (i ≤ length q) × (node i ≡ p)))

-- The result of a call of the producer.
pub record Rests (s t : System) (q : Fifo) : Type 0 where
  pub at_rest : t.producer ≡ idle
  pub same_consumer : t.consumer ≡ s.consumer
  pub represents : Represents t q
  pub count : t.num_events ≡ pos (1 + length q)
  pub cleaned : Cleaned t q

-- The unread events are those behind the divider.
drop-Represents : {s : System} (g : IsGood s) (q : Fifo) → Represents s q → drop g.d s.sent ≡ q
drop-Represents {s} g q rep = map-some-injective (drop g.d s.sent) q (
    sym (map-drop some g.d s.sent)
    ∙ ap (drop g.d) rep
    ∙ ap (λ n. drop n (s.got ++ map some q)) (sym (length-got g))
    ∙ drop-append s.got (map some q))

length-Represents :
    (s : System) (q : Fifo) → Represents s q → length s.sent ≡ length s.got + length q
length-Represents s q rep = omega (
  arith,
  ap length rep,
  length-map some s.sent,
  length-append s.got (map some q),
  length-map some q,
)

Represents-push :
    (s t : System) (e : Event) (q : Fifo)
    → Represents s q
    → t.sent ≡ s.sent ++ e ∷ []
    → t.got ≡ s.got
    → Represents t (q ++ e ∷ [])
Represents-push s t e q rep sent got = rw (sent, got) (simp (map-append, append_assoc, rep))

-- While something is unread the divider is not the last node.
unread_apart :
    {s : System} (g : IsGood s) (e : Event) (q : Fifo)
    → Represents s (e ∷ q)
    → (s.divider == s.last) ≡ false
unread_apart {s} g e q rep = elim (Bool-cases (s.divider == s.last)) [
  | inl met ↦ absurd (
      omega (
        arith,
        ap length ((divider-last g).0 met),
        length-map some s.sent,
        length-Represents s (e ∷ q) rep,
      ))
  | inr other ↦ other
]

count_at_rest :
    (t : System) (q : Fifo)
    → (d : ℕ) × (node : ℕ → Ptr) × Inv d d node t idle t.consumer
    → Represents t q
    → t.num_events ≡ pos (1 + length q)
count_at_rest t q (d, node, i) rep =
    let got : length t.got ≡ d =
      ap length i.jobs
      ∙ length-map some (take d t.sent)
      ∙ length-take d t.sent (omega (arith, i.behind)) in
    i.count ∙ ap pos (omega (arith, length-Represents t q rep))

get_elem?-drop_shift :
    (n : ℕ) (xs : List Event) (k : ℕ) → get_elem? (drop n xs) k ≡ get_elem? xs (n + k)
get_elem?-drop_shift zero xs k = ap (get_elem? xs) (omega arith)
get_elem?-drop_shift (suc n) [] k = refl
get_elem?-drop_shift (suc n) (x ∷ xs) k =
    let at : suc (n + k) ≡ suc n + k = omega arith in
    get_elem?-drop_shift n xs k ∙ ap (get_elem? (x ∷ xs)) at

at_rest-Cleaned :
    (t : System) (q : Fifo)
    → (d : ℕ) × (node : ℕ → Ptr) × Inv d d node t idle t.consumer
    → Represents t q
    → Cleaned t q
at_rest-Cleaned t q (d, node, i) rep =
    let got : length t.got ≡ d =
      ap length i.jobs
      ∙ length-map some (take d t.sent)
      ∙ length-take d t.sent (omega (arith, i.behind)) in
    let all = length-Represents t q rep in
    let unread : drop d t.sent ≡ q = map-some-injective (drop d t.sent) q (
      sym (map-drop some d t.sent)
      ∙ ap (drop d) rep
      ∙ ap (λ n. drop n (t.got ++ map some q)) (sym got)
      ∙ drop-append t.got (map some q)) in
    (
      i.first_at ∙ sym i.divider_at,
      λ n. node (d + n),
      ap node (omega arith) ∙ sym i.divider_at,
      λ k lt.
          let (next, at) = load-job i.chain (suc (d + k)) (omega arith) (omega (arith, got, all)) in
          (
            next,
            ap (λ n. load t.heap (node n)) (omega arith)
                ∙ at
                ∙ ap (λ o. some (job_node o next))
                    (sym (get_elem?-drop_shift d t.sent k) ∙ ap (λ es. get_elem? es k) unread),
          ),
      λ p. elim (i.owned p) [
        | inl unused ↦ inl unused
        | inr held ↦ elim held [
          | inl (j, from, to, at) ↦
              inr (j - d, omega (arith, from, to, got, all), ap node (omega (arith, from)) ∙ at)
          | inr none_held ↦ absurd none_held
        ]
      ],
    )

-- Called between two of its calls, with an unused address for the new node, `addEvent` returns, puts
-- the event behind the unread ones, and leaves in `numEvents` the number of unread events and the
-- dummy. Every node that the consumer has left is cleaned up: `first` is the divider, and no address
-- holds a node but that of the dummy and those of the unread events.
pub add_event-push :
    {s : System} (fresh : Ptr) (e : Event) (q : Fifo)
    → Reach s
    → s.producer ≡ idle
    → IsFresh s.heap fresh
    → Represents s q
    → (t : System) × (add_event fresh e s ≡ some t) × Rests s t (push q e)
unfolding add_event push
add_event-push {s} fresh e q r at new rep =
    let g = begins_add e at (Reach-IsGood r) in
    let (t, run, f) =
      finish-Finished fresh (8 + 4 * length s.got) (record s { producer = add_load e }) (add_load e)
        refl (λ k. absurd (cc)) g.inv new (omega (arith, length-got g)) in
    (
      t,
      run,
      record {
        at_rest = f.at_rest;
        same_consumer = f.consumer;
        represents = Represents-push s t e q rep f.sent_all f.got;
        count = count_at_rest t (push q e) f.clean (Represents-push s t e q rep f.sent_all f.got);
        cleaned =
            at_rest-Cleaned t (push q e) f.clean (Represents-push s t e q rep f.sent_all f.got);
      },
    )

-- Called between two of its calls, `getEvent` returns, with the oldest unread event or with the
-- report that there is none.
pub get_event-pop :
    {s : System} (r : Reply) (q : Fifo)
    → Reach s
    → s.consumer ≡ returned r
    → Represents s q
    → (t : System) × (get_event s ≡ some t)
      × Represents t (pop q).0
      × (t.consumer ≡ returned (reply (pop q).1))
      × (t.producer ≡ s.producer)
unfolding get_event pop finish_consume consume consume_at
get_event-pop {s} r [] reach at rep =
    let g = Reach-IsGood reach in
    let met = (divider-last g).1 (rep ∙ append-nil s.got) in
    (record s { consumer = returned no_event }, ground (arith, met), rep, refl, refl)
get_event-pop {s} r (e ∷ q) reach at rep =
    let g = Reach-IsGood reach in
    let (lt, here) = get_elem?-drop g.d s.sent e q (drop-Represents g (e ∷ q) rep) in
    (
      record s {
        divider = g.node (suc g.d);
        consumer = returned (event (some e));
        got = s.got ++ some e ∷ [];
      },
      ground (
        arith,
        unread_apart g e q rep,
        here,
        load-divider s g.inv lt s.divider refl,
        next-ne_null s g.inv lt,
        (load-next s g.inv lt).1,
      ),
      rw (append_assoc) rep,
      refl,
      refl,
    )

-- Called between two calls of the consumer, `nextEventTime` returns the time of the oldest unread
-- event, or -1 if there is none, and changes nothing else.
pub next_event_time-next_time :
    {s : System} (r : Reply) (q : Fifo)
    → Reach s
    → s.consumer ≡ returned r
    → Represents s q
    → next_event_time s ≡ some (record s { consumer = returned (time (next_time q)) })
unfolding next_event_time next_time finish_consume consume consume_at
next_event_time-next_time {s} r [] reach at rep =
    let met = (divider-last (Reach-IsGood reach)).1 (rep ∙ append-nil s.got) in ground (arith, met)
next_event_time-next_time {s} r (e ∷ q) reach at rep =
    let g = Reach-IsGood reach in
    let (lt, here) = get_elem?-drop g.d s.sent e q (drop-Represents g (e ∷ q) rep) in
    ground (
      arith,
      unread_apart g e q rep,
      here,
      load-divider s g.inv lt s.divider refl,
      next-ne_null s g.inv lt,
      (load-next s g.inv lt).1,
    )
