-- ===== src/EventQueue/Invariant/Adding.antt =====
-- Every access of the producer from the link of a new node on, in `addEvent`, goes through and
-- keeps the invariant.
use mimic_generator.Common.{
  ℕ, suc, refl, sym, ap, ◌∙◌, some, List, [], ◌∷◌, ◌++◌, arith, length, take-append,
  get_elem?-append_lt, ◌∙◌,
}
use mimic_generator.Common.Int.{◌+ℤ◌}
use mimic_generator.Event.{Event}
use mimic_generator.EventQueue.Machine.{
  Ptr, write, add_link, add_store, add_count, Consumer, returned, get_load, get_test, get_next,
  get_job, get_store, time_load, time_test, time_next, time_read, System, produce_at,
}
use mimic_generator.EventQueue.Chain.{
  job_node, job_at, extend, load-inner, load-end, Chain-link, length-snoc,
}
use mimic_generator.EventQueue.Invariant.{Consumes, Inv, Moves}
use mimic_generator.EventQueue.Invariant.Owning.{Owned-link}

Consumes-append :
    (v : Ptr) (d : ℕ) (xs : List Event) (e : Event) (c : Consumer)
    → Consumes v d xs c
    → Consumes v d (xs ++ e ∷ []) c
Consumes-append v d xs e (get_next n) l = (l.0, omega (arith, length-snoc xs e))
Consumes-append v d xs e (get_job n) l = (l.0, omega (arith, length-snoc xs e))
Consumes-append v d xs e (get_store n j) l =
    (l.0, omega (arith, length-snoc xs e), l.2 ∙ sym (get_elem?-append_lt xs (e ∷ []) d l.1))
Consumes-append v d xs e (time_next n) l = (l.0, omega (arith, length-snoc xs e))
Consumes-append v d xs e (time_read n) l = (l.0, omega (arith, length-snoc xs e))
Consumes-append v d xs e (get_test n) l = l
Consumes-append v d xs e (time_test n) l = l
Consumes-append v d xs e (returned r) l = tt
Consumes-append v d xs e get_load l = tt
Consumes-append v d xs e time_load l = tt

module _ (fresh : Ptr) (s : System) {f d : ℕ} {node : ℕ → Ptr} where
  pub add_link-Moved :
      (e : Event) (n j : Ptr)
      → Inv f d node s (add_link e n j) s.consumer
      → Moves fresh f d s (add_link e n j) (produce_at fresh s (add_link e n j))
  unfolding produce_at
  add_link-Moved e n j i = (
    record s {
      heap = write s.heap n (some (job_node (job_at s.sent (length s.sent)) j));
      producer = add_store e n;
    },
    ground (arith, load-end i.chain),
    record {
      f' = f;
      cheaper = ground arith;
      kept = (refl, refl, refl);
      supply = λ u. tt;
      done = λ e. absurd (cc);
      node = extend node (suc (length s.sent)) j;
      inv = record {
        shape = record {
          chain = rw i.produces.0 (Chain-link i.chain j e i.produces.1 i.produces.2 i.produces.3);
          first_at = ground arith;
          divider_at = ground arith;
          last_at = ground arith;
          cleaned = i.cleaned;
          behind = i.behind;
          jobs = i.jobs;
        };
        owned = Owned-link s.sent e n j _ i.chain.within i.produces.0 i.owned;
        count = ground (arith, length-snoc s.sent e);
        produces = ground arith;
        consumes = i.consumes;
      };
    },
  )

  pub add_store-Moved :
      (e : Event) (n : Ptr)
      → Inv f d node s (add_store e n) s.consumer
      → Moves fresh f d s (add_store e n) (produce_at fresh s (add_store e n))
  unfolding produce_at
  add_store-Moved e n i = (
    record s { last = node (suc (length s.sent)); producer = add_count; sent = s.sent ++ e ∷ [] },
    ground (arith, load-inner i.chain (length s.sent), length-snoc s.sent e),
    record {
      f' = f;
      cheaper = ground arith;
      kept = (refl, refl, refl);
      supply = λ u. tt;
      done = λ e. absurd (cc);
      node = node;
      inv = record {
        shape = record {
          chain = i.chain;
          first_at = i.first_at;
          divider_at = i.divider_at;
          last_at = ap node (sym (length-snoc s.sent e));
          cleaned = i.cleaned;
          behind = omega (arith, length-snoc s.sent e);
          jobs = rw (take-append d s.sent (e ∷ []) (omega arith)) i.jobs;
        };
        owned = i.owned;
        count = i.count;
        produces = tt;
        consumes = Consumes-append s.divider d s.sent e s.consumer i.consumes;
      };
    },
  )

  pub add_count-Moved :
      Inv f d node s add_count s.consumer
      → Moves fresh f d s add_count (produce_at fresh s add_count)
  unfolding produce_at ◌+ℤ◌
  add_count-Moved i = (
    _,
    refl,
    record {
      f' = f;
      cheaper = ground arith;
      kept = (refl, refl, refl);
      supply = λ u. tt;
      done = λ e. absurd (cc);
      node = node;
      inv = record {
        shape = i.shape;
        owned = i.owned;
        count = rw i.count (ground (arith, i.chain.within));
        produces = tt;
        consumes = i.consumes;
      };
    },
  )
