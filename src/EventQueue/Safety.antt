-- ===== src/EventQueue/Safety.antt =====
-- What holds of an EventQueue in every state that its two threads can reach.
use mimic_generator.Common.{
  suc, ◌+◌, ◌≡◌, sym, ap, ◌∙◌, ◌≢◌, some, List, ◌∷◌, ◌++◌, map, arith, length, take, drop,
  take-append-drop, ◌↔◌, drop-cons, get_elem?-some,
}
use mathlib.Core.Path.{subst}
use mathlib.Core.List.{map-append}
use mimic_generator.Common.Int.{pos, ◌≤ℤ◌, ◌+ℤ◌}
use mimic_generator.Event.{Event}
use mimic_generator.EventQueue.Machine.{
  Ptr, idle, Reply, returned, get_test, time_read, no_event, time, System, produce, consume,
  consume_at, Allocates, Reach,
}
use mimic_generator.EventQueue.Invariant.{Inv, Consumes}
use mimic_generator.EventQueue.Invariant.Produce.{produce-Moved}
use mimic_generator.EventQueue.Invariant.Consume.{load-divider, load-next, consume-IsGood}
use mimic_generator.EventQueue.Reachable.{Reach-IsGood, length-got, divider-last, shares_out}

-- In a reachable state an access that the producer is about to make goes through: it dereferences
-- neither a null pointer nor a node that has been deleted.
pub producer-no_fault :
    {s : System} (fresh : Ptr)
    → Reach s
    → s.producer ≢ idle
    → Allocates s.heap fresh s.producer
    → (t : System) × (produce fresh s ≡ some t)
unfolding produce
producer-no_fault {s} fresh r busy new =
    let (t, e, _) = produce-Moved fresh s s.producer busy new (Reach-IsGood r).inv in (t, e)

-- In a reachable state an access that the consumer is about to make goes through: it dereferences
-- neither a null pointer, nor a node that has been deleted, nor the null job of the dummy.
pub consumer-no_fault :
    {s : System}
    → Reach s
    → ((r : Reply) → s.consumer ≢ returned r)
    → (t : System) × (consume s ≡ some t)
unfolding consume
consumer-no_fault {s} r busy =
    let (t, e, _) = consume-IsGood s s.consumer busy (Reach-IsGood r).inv in (t, e)

-- Under every interleaving of the two threads, the jobs that the consumer has got are the first
-- events that were sent, each once and in their order.
pub got-sent :
    {s : System} → Reach s → (unread : List Event) × (map some s.sent ≡ s.got ++ map some unread)
got-sent {s} r =
    let g = Reach-IsGood r in
    (
      drop g.d s.sent,
      rw g.inv.jobs (
          ap (map some) (sym (take-append-drop g.d s.sent))
          ∙ map-append some (take g.d s.sent) (drop g.d s.sent)),
    )

-- In a reachable state where `getEvent` compares `divider` with `last`, it reports an empty queue
-- exactly if every event sent so far has been got.
pub get_test-empty :
    {s : System} (n : Ptr)
    → Reach s
    → s.consumer ≡ get_test n
    → (consume s ≡ some (record s { consumer = returned no_event })) ↔ (map some s.sent ≡ s.got)
unfolding consume consume_at
get_test-empty {s} n r at =
    let g = Reach-IsGood r in
    let here : n ≡ s.divider = subst (Consumes s.divider g.d s.sent) at g.inv.consumes in
    let (met, all_got) = divider-last g in
    let run = ap (consume_at s) at in
    (λ e. met (ground (arith, run, here)), λ e. ground (arith, run, here, all_got e))

-- The time that `nextEventTime` is about to return in a reachable state is that of the next event
-- that `getEvent` will return.
pub time_read-next :
    {s : System} (n : Ptr)
    → Reach s
    → s.consumer ≡ time_read n
    → (e : Event) × (unread : List Event) × (map some s.sent ≡ s.got ++ some e ∷ map some unread)
      × (consume s ≡ some (record s { consumer = returned (time e.ms_from_start) }))
unfolding consume consume_at
time_read-next {s} n r at =
    let g = Reach-IsGood r in
    let (here, lt) = subst (Consumes s.divider g.d s.sent) at g.inv.consumes in
    let (e, unread) = get_elem?-some s.sent g.d lt in
    (
      e,
      drop (suc g.d) s.sent,
      shares_out s.sent g.d g.inv.jobs
          ∙ ap (λ ys. s.got ++ map some ys) (drop-cons g.d s.sent e unread),
      ap (consume_at s) at
          ∙ ground (arith, load-divider s g.inv lt n here, (load-next s g.inv lt).1),
    )

-- Between two calls of the producer `numEvents` counts the dummy and every event that is unread,
-- and no more than the dummy and every event sent.
pub num_events-bounds :
    {s : System}
    → Reach s
    → s.producer ≡ idle
    → (pos (1 + length s.sent) ≤ℤ s.num_events +ℤ pos (length s.got))
      × (s.num_events ≤ℤ pos (1 + length s.sent))
unfolding ◌+ℤ◌
num_events-bounds {s} r at =
    let g = Reach-IsGood r in
    let i = subst (λ p. Inv g.f g.d g.node s p s.consumer) at g.inv in
    rw i.count (ground (arith, length-got g, i.cleaned, i.behind))
