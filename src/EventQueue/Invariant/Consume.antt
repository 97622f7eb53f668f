-- ===== src/EventQueue/Invariant/Consume.antt =====
-- Every access of the consumer, in `getEvent` and `nextEventTime`, goes through and keeps the
-- invariant.
use mimic_generator.Common.{
  ℕ, suc, ◌<◌, ◌≡◌, refl, sym, ap, ◌≢◌, Option, some, List, [], ◌∷◌, ◌++◌, map, arith,
  if◌then◌else◌, ◌==◌, length, take, get_elem?, get_elem?-some, take-suc, Bool-cases, false, inl,
  inr,
}
use mathlib.Core.List.{map-append}
use native.Mathlib.Decide.{dec_lt}
use mimic_generator.Common.Int.{negsuc}
use mimic_generator.Event.{Event}
use mimic_generator.EventQueue.Machine.{
  Ptr, null, Heap, load, Producer, clean_take, Reply, Consumer, returned, get_load, get_test,
  get_next, get_job, get_store, time_load, time_test, time_next, time_read, System, consume_at,
  event, no_event, time,
}
use mimic_generator.EventQueue.Chain.{job_node, job_at, load-inner, load-job}
use mimic_generator.EventQueue.Invariant.{
  Produces, Consumes, Inv, IsGood, Goes, eq_of_not_lt, linked_sent,
}

Produces-suc :
    (h : Heap) (node : ℕ → Ptr) (f d : ℕ) (xs : List Event) (p : Producer)
    → Produces h node f d xs p
    → Produces h node f (suc d) xs p
Produces-suc h node f d xs clean_take l = omega arith
Produces-suc h node f d xs p l = l

-- One more job is got.
got-take :
    {got : List (Option Event)} {j : Option Event} (d : ℕ) (xs : List Event)
    → got ≡ map some (take d xs)
    → (e : Event) × (get_elem? xs d ≡ some e)
    → j ≡ get_elem? xs d
    → got ++ j ∷ [] ≡ map some (take (suc d) xs)
got-take d xs e (x, here) k =
    rw (e, k, here, take-suc d xs x here) (sym (map-append some (take d xs) (x ∷ [])))

module _ (s : System) {f d : ℕ} {node : ℕ → Ptr} where
  keeps :
      {c₀ : Consumer} (c : Consumer)
      → Inv f d node s s.producer c₀
      → Consumes s.divider d s.sent c
      → IsGood (record s { consumer = c })
  keeps c i l = record {
    f = f;
    d = d;
    node = node;
    inv = record {
      shape = i.shape;
      owned = i.owned;
      count = i.count;
      produces = i.produces;
      consumes = l;
    };
  }

  module _ {c : Consumer} (i : Inv f d node s s.producer c) (lt : d < length s.sent) where
    -- The divider's node has a successor while an event is unread.
    pub load-divider :
        (n : Ptr) → n ≡ s.divider → load s.heap n ≡ some (job_node (job_at s.sent d) (node (suc d)))
    load-divider n e =
        let (le, same) = linked_sent s.sent s.producer d i.behind in
        let (lt', _) = linked_sent s.sent s.producer (suc d) lt in
        ground (arith, load-inner i.chain d, i.cleaned, i.divider_at)

    pub next-ne_null : (node (suc d) == null) ≡ false
    next-ne_null =
        let (lt', _) = linked_sent s.sent s.producer (suc d) lt in
        ground (arith, i.chain.ne_null (suc d), i.cleaned)

    -- The successor holds the oldest unread event.
    pub load-next :
        (n : Ptr) × (load s.heap (node (suc d)) ≡ some (job_node (get_elem? s.sent d) n))
    load-next =
        let (le, same) = linked_sent s.sent s.producer (suc d) lt in
        let (n, e) = load-job i.chain (suc d) (omega (arith, i.cleaned)) le in (n, rw same at e)

  unread :
      {p : Producer} {c : Consumer} (n : Ptr)
      → Inv f d node s p c
      → n ≡ s.divider
      → (n == s.last) ≡ false
      → d < length s.sent
  unread n i e ne = elim (dec_lt d (length s.sent)) [
    | yes lt ↦ lt
    | no ge ↦ ground (arith, i.divider_at, i.last_at, ap node (eq_of_not_lt i.behind ge))
  ]

  get_store-IsGood :
      (n : Ptr) (j : Option Event)
      → Inv f d node s s.producer (get_store n j)
      → Goes (consume_at s (get_store n j))
  unfolding consume_at
  get_store-IsGood n j i = (
    record s { divider = node (suc d); consumer = returned (event j); got = s.got ++ j ∷ [] },
    ground (arith, load-divider i i.consumes.1 n i.consumes.0),
    record {
      f = f;
      d = suc d;
      node = node;
      inv = record {
        shape = record {
          chain = i.chain;
          first_at = i.first_at;
          divider_at = refl;
          last_at = i.last_at;
          cleaned = omega arith;
          behind = i.consumes.1;
          jobs = got-take d s.sent i.jobs (get_elem?-some s.sent d i.consumes.1) i.consumes.2;
        };
        owned = i.owned;
        count = i.count;
        produces = Produces-suc s.heap node f d s.sent s.producer i.produces;
        consumes = tt;
      };
    },
  )

  -- The test of `divider` against `last` passes only while an event is unread.
  test-IsGood :
      {c : Consumer} (n : Ptr) (empty more : Consumer)
      → Inv f d node s s.producer c
      → n ≡ s.divider
      → Consumes s.divider d s.sent empty
      → (d < length s.sent → Consumes s.divider d s.sent more)
      → IsGood (record s { consumer = if n == s.last then empty else more })
  test-IsGood n empty more i e l r = elim (Bool-cases (n == s.last)) [
    | inl same ↦ rw same (keeps empty i l)
    | inr other ↦ rw other (keeps more i (r (unread n i e other)))
  ]

  pub consume-IsGood :
      (c : Consumer)
      → ((r : Reply) → c ≢ returned r)
      → Inv f d node s s.producer c
      → Goes (consume_at s c)
  unfolding consume_at
  consume-IsGood (returned r) ne i = absurd (ne r refl)
  consume-IsGood get_load ne i = (_, refl, keeps _ i refl)
  consume-IsGood (get_test n) ne i = (
    _,
    refl,
    test-IsGood n (returned no_event) (get_next n) i i.consumes tt (λ lt. (i.consumes, lt)),
  )
  consume-IsGood (get_next n) ne i = (
    record s { consumer = get_job n },
    ground (arith, load-divider i i.consumes.1 n i.consumes.0, next-ne_null i i.consumes.1),
    keeps _ i i.consumes,
  )
  consume-IsGood (get_job n) ne i = (
    record s { consumer = get_store n (get_elem? s.sent d) },
    ground (arith, load-divider i i.consumes.1 n i.consumes.0, (load-next i i.consumes.1).1),
    keeps _ i (i.consumes.0, i.consumes.1, refl),
  )
  consume-IsGood (get_store n j) ne i = get_store-IsGood n j i
  consume-IsGood time_load ne i = (_, refl, keeps _ i refl)
  consume-IsGood (time_test n) ne i = (
    _,
    refl,
    test-IsGood n (returned (time (negsuc 0))) (time_next n) i i.consumes tt
        (λ lt. (i.consumes, lt)),
  )
  consume-IsGood (time_next n) ne i = (
    record s { consumer = time_read n },
    ground (arith, load-divider i i.consumes.1 n i.consumes.0, next-ne_null i i.consumes.1),
    keeps _ i i.consumes,
  )
  consume-IsGood (time_read n) ne i =
      let (e, got) = get_elem?-some s.sent d i.consumes.1 in
      (
        record s { consumer = returned (time e.ms_from_start) },
        ground (arith, load-divider i i.consumes.1 n i.consumes.0, (load-next i i.consumes.1).1),
        keeps _ i tt,
      )
