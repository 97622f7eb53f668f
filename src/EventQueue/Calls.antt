-- ===== src/EventQueue/Calls.antt =====
-- A whole call of `addEvent`, `cleanUp`, `getEvent` or `nextEventTime`, while the other thread waits.
use mimic_generator.Common.{
  ℕ, zero, suc, ◌+◌, ◌*◌, ◌-◌, ◌<◌, ◌≡◌, refl, ap, ◌∙◌, ◌≢◌, Option, none, some, List, arith,
  length,
}
use mathlib.Core.Path.{subst}
use mimic_generator.Event.{Event}
use mimic_generator.EventQueue.Machine.{
  Ptr, Producer, idle, add_load, add_new, clean_test, returned, get_load, time_load, System,
  produce, produce_at, consume, Allocates,
}
use mimic_generator.EventQueue.Invariant.{Inv, Supplies, cost, sent_by}
use mimic_generator.EventQueue.Invariant.Produce.{produce-Moved}

-- The producer runs until its call returns. None: a fault, or the fuel has run out.
unfoldable pub finish_produce : ℕ → Ptr → System → Option System
finish_produce zero fresh s = none
finish_produce (suc k) fresh s = elim s.producer [
  | idle ↦ some s
  | _ ↦ elim (produce fresh s) [ none ↦ none | some t ↦ finish_produce k fresh t ]
]

-- The consumer runs until its call returns.
unfoldable pub finish_consume : ℕ → System → Option System
finish_consume zero s = none
finish_consume (suc k) s = elim s.consumer [
  | returned r ↦ some s
  | _ ↦ elim (consume s) [ none ↦ none | some t ↦ finish_consume k t ]
]

-- Each access takes a unit of fuel, and a node to clean up takes four.
unfoldable pub add_event : (fresh : Ptr) → Event → System → Option System
unfolding finish_produce
add_event fresh e s =
    finish_produce (8 + 4 * length s.got) fresh (record s { producer = add_load e })

unfoldable pub clean_up : System → Option System
unfolding finish_produce
clean_up s = finish_produce (8 + 4 * length s.got) 0 (record s { producer = clean_test })

unfoldable pub get_event : System → Option System
unfolding finish_consume
get_event s = finish_consume 6 (record s { consumer = get_load })

unfoldable pub next_event_time : System → Option System
unfolding finish_consume
next_event_time s = finish_consume 5 (record s { consumer = time_load })

-- The state when the producer's call has returned.
pub record Finished (s t : System) (sent : List Event) : Type 0 where
  pub at_rest : t.producer ≡ idle
  pub consumer : t.consumer ≡ s.consumer
  pub got : t.got ≡ s.got
  pub sent_all : t.sent ≡ sent
  pub clean : (d : ℕ) × (node : ℕ → Ptr) × Inv d d node t idle t.consumer

module _ (fresh : Ptr) where
  finish-idle : (k : ℕ) (s : System) → s.producer ≡ idle → finish_produce (suc k) fresh s ≡ some s
  unfolding finish_produce
  finish-idle k s at = ground (arith, at)

  finish-next :
      (k : ℕ) (s t : System) (p : Producer)
      → s.producer ≡ p
      → p ≢ idle
      → produce_at fresh s p ≡ some t
      → finish_produce (suc k) fresh s ≡ finish_produce k fresh t
  unfolding finish_produce produce
  finish-next k s t idle at busy e = absurd (busy refl)
  finish-next k s t p at busy e = ground (arith, at, e, ap (produce_at fresh s) at)

  -- With fuel for its accesses a call of the producer returns.
  pub finish-Finished :
      (k : ℕ) (s : System) {f d : ℕ} {node : ℕ → Ptr} (p : Producer)
      → s.producer ≡ p
      → (p ≡ idle → f ≡ d)
      → Inv f d node s p s.consumer
      → Supplies s.heap fresh p
      → cost p (d - f) < k
      → (t : System) × (finish_produce k fresh s ≡ some t) × Finished s t (sent_by p s.sent)
  finish-Finished zero s p at met i new enough = absurd (omega arith)
  finish-Finished (suc k) s {d} {node} idle at met i new enough = (
    s,
    finish-idle k s at,
    record {
      at_rest = at;
      consumer = refl;
      got = refl;
      sent_all = refl;
      clean = (d, node, subst (λ f. Inv f d node s idle s.consumer) (met refl) i);
    },
  )
  finish-Finished (suc k) s p at met i new enough =
      let (t, e, m) = produce-Moved fresh s p (λ b. cc) (supplied p new) i in
      let (u, e', r) =
        finish-Finished k t t.producer refl m.done m.inv (m.supply new)
          (omega (arith, m.cheaper)) in
      (
        u,
        finish-next k s t p at (λ b. cc) e ∙ e',
        record {
          at_rest = r.at_rest;
          consumer = r.consumer ∙ m.kept.0;
          got = r.got ∙ m.kept.1;
          sent_all = r.sent_all ∙ m.kept.2;
          clean = r.clean;
        },
      )
    where
      supplied : (q : Producer) → Supplies s.heap fresh q → Allocates s.heap fresh q
      supplied (add_new e n) u = u
      supplied q u = tt
