-- ===== src/EventQueue/Reachable.antt =====
-- The invariant holds in every state that the two threads of an EventQueue can reach.
use mimic_generator.Common.{
  ℕ, ◌≡◌, refl, sym, ap, ◌∙◌, ◌≢◌, Option, some, List, ◌++◌, map, arith, ◌==◌, length, take, drop,
  take-append-drop, ◌↔◌, true, length-map, take-length, length-take, ==_iff,
}
use native.Mathlib.Decide.{dec_lt}
use mathlib.Core.Path.{subst}
use mathlib.Core.Option.{some-injective}
use mathlib.Core.List.{map-append}
use mimic_generator.Event.{Event}
use mimic_generator.EventQueue.Machine.{
  Ptr, null, Producer, idle, add_load, clean_test, Consumer, returned, get_load, time_load, System,
  new_queue, produce, produce_at, consume, consume_at, Allocates, Step, call_add, call_clean,
  call_get, call_time, produces, consumes, Reach, start, later,
}
use mimic_generator.EventQueue.Invariant.{Inv, IsGood, Goes, eq_of_not_lt, linked_sent, Consumes}
use mimic_generator.EventQueue.Invariant.Owning.{Owned-queue}
use mimic_generator.EventQueue.Invariant.Produce.{produce-Moved}
use mimic_generator.EventQueue.Invariant.Consume.{consume-IsGood}

new_queue-IsGood : (p : Ptr) → p ≢ null → IsGood (new_queue p)
unfolding new_queue
new_queue-IsGood p ne = record {
  f = 0;
  d = 0;
  node = λ _. p;
  inv = record {
    shape = record {
      chain = record {
        within = omega arith;
        ne_null = λ i lo hi. ne;
        distinct = λ i j lo lt hi. absurd (omega arith);
        inner = λ i lo hi. absurd (omega arith);
        end = ground arith;
      };
      first_at = refl;
      divider_at = refl;
      last_at = refl;
      cleaned = omega arith;
      behind = omega arith;
      jobs = refl;
    };
    owned = Owned-queue p;
    count = refl;
    produces = tt;
    consumes = tt;
  };
}

-- An access that goes through has one result.
Goes-IsGood : {r : Option System} {t : System} → Goes r → r ≡ some t → IsGood t
Goes-IsGood (t', e', g) e = subst IsGood (some-injective _ _ (sym e' ∙ e)) g

module _ (s : System) {f d : ℕ} {node : ℕ → Ptr} {t : System} where
  produces-IsGood :
      (fresh : Ptr) (p : Producer)
      → Allocates s.heap fresh p
      → Inv f d node s p s.consumer
      → produce_at fresh s p ≡ some t
      → IsGood t
  unfolding produce_at
  produces-IsGood fresh idle new i e = absurd (cc)
  produces-IsGood fresh p new i e =
      let (t', e', m) = produce-Moved fresh s p (λ k. cc) new i in
      Goes-IsGood (t', e', record { f = m.f'; d = d; node = m.node; inv = m.inv }) e

  consumes-IsGood :
      (c : Consumer) → Inv f d node s s.producer c → consume_at s c ≡ some t → IsGood t
  unfolding consume_at
  consumes-IsGood (returned r) i e = absurd (cc)
  consumes-IsGood c i e = Goes-IsGood (consume-IsGood s c (λ r k. cc) i) e

pub begins_add :
    {s : System} (e : Event)
    → s.producer ≡ idle
    → IsGood s
    → IsGood (record s { producer = add_load e })
begins_add {s} e at g =
    let i : Inv g.f g.d g.node s idle s.consumer =
      subst (λ p. Inv g.f g.d g.node s p s.consumer) at g.inv in
    record {
      f = g.f;
      d = g.d;
      node = g.node;
      inv = record {
        shape = i.shape;
        owned = i.owned;
        count = i.count;
        produces = tt;
        consumes = i.consumes;
      };
    }

begins_clean :
    {s : System} → s.producer ≡ idle → IsGood s → IsGood (record s { producer = clean_test })
begins_clean {s} at g =
    let i : Inv g.f g.d g.node s idle s.consumer =
      subst (λ p. Inv g.f g.d g.node s p s.consumer) at g.inv in
    record {
      f = g.f;
      d = g.d;
      node = g.node;
      inv = record {
        shape = i.shape;
        owned = i.owned;
        count = i.count;
        produces = tt;
        consumes = i.consumes;
      };
    }

begins_read :
    {s : System} (c : Consumer)
    → ((v : Ptr) (d : ℕ) (xs : List Event) → Consumes v d xs c)
    → IsGood s
    → IsGood (record s { consumer = c })
begins_read {s} c free g = record {
  f = g.f;
  d = g.d;
  node = g.node;
  inv = record {
    shape = g.inv.shape;
    owned = g.inv.owned;
    count = g.inv.count;
    produces = g.inv.produces;
    consumes = free s.divider g.d s.sent;
  };
}

Step-IsGood : {s t : System} → Step s t → IsGood s → IsGood t
unfolding produce consume
Step-IsGood (call_add e at k) g = rw k (begins_add e at g)
Step-IsGood (call_clean at k) g = rw k (begins_clean at g)
Step-IsGood (call_get r at k) g = rw k (begins_read get_load (λ v d xs. tt) g)
Step-IsGood (call_time r at k) g = rw k (begins_read time_load (λ v d xs. tt) g)
Step-IsGood {s} (produces fresh new e) g = produces-IsGood s fresh s.producer new g.inv e
Step-IsGood {s} (consumes e) g = consumes-IsGood s s.consumer g.inv e

pub Reach-IsGood : {s : System} → Reach s → IsGood s
Reach-IsGood (start d ne) = new_queue-IsGood d ne
Reach-IsGood (later r st) = Step-IsGood st (Reach-IsGood r)

pub shares_out :
    {got : List (Option Event)} (xs : List Event) (n : ℕ)
    → got ≡ map some (take n xs)
    → map some xs ≡ got ++ map some (drop n xs)
shares_out xs n e =
    rw (e, ← map-append some (take n xs) (drop n xs)) (ap (map some) (sym (take-append-drop n xs)))

-- As many jobs are got as `divider` has passed nodes.
pub length-got : {s : System} (g : IsGood s) → length s.got ≡ g.d
length-got {s} g =
    ap length g.inv.jobs
    ∙ length-map some (take g.d s.sent)
    ∙ length-take g.d s.sent (omega (arith, g.inv.behind))

-- `divider` and `last` meet exactly when nothing is unread.
pub divider-last :
    {s : System} → IsGood s → ((s.divider == s.last) ≡ true) ↔ (map some s.sent ≡ s.got)
divider-last {s} g = (met, all_got)
  where
    open g use {d, node, inv}

    met : (s.divider == s.last) ≡ true → map some s.sent ≡ s.got
    met e = elim (dec_lt d (length s.sent)) [
      | yes lt ↦ absurd (
          inv.chain.distinct d (length s.sent) inv.cleaned lt
            (linked_sent s.sent s.producer (length s.sent) (omega arith)).0
            (sym inv.divider_at ∙ (==_iff s.divider s.last).0 e ∙ inv.last_at))
      | no ge ↦ rw (inv.jobs, eq_of_not_lt inv.behind ge) (ap (map some) (sym (take-length s.sent)))
    ]

    all_got : map some s.sent ≡ s.got → (s.divider == s.last) ≡ true
    all_got e =
        let same : length s.sent ≡ d = sym (length-map some s.sent) ∙ ap length e ∙ length-got g in
        (==_iff s.divider s.last).1 (inv.divider_at ∙ ap node (sym same) ∙ sym inv.last_at)
