-- ===== src/EventQueue/Invariant/Produce.antt =====
-- Every access of the producer, in `addEvent` and `cleanUp`, goes through and keeps the invariant.
use mimic_generator.Common.{ℕ, refl, ◌≢◌, List, arith}
use mimic_generator.Event.{Event}
use mimic_generator.EventQueue.Machine.{
  Ptr, Heap, Producer, idle, add_load, add_new, add_link, add_store, add_count, clean_test,
  clean_take, clean_delete, clean_count, System, produce_at, IsFresh, Allocates,
}
use mimic_generator.EventQueue.Chain.{Chain, Outside, load-job, Chain-write}
use mimic_generator.EventQueue.Invariant.{Inv, Moves}
use mimic_generator.EventQueue.Invariant.Owning.{Owned-new}
use mimic_generator.EventQueue.Invariant.Adding.{add_link-Moved, add_store-Moved, add_count-Moved}
use mimic_generator.EventQueue.Invariant.Cleaning.{
  clean_test-Moved, clean_take-Moved, clean_delete-Moved, clean_count-Moved,
}

not-mem-fresh :
    {h : Heap} {fresh : Ptr} {f : ℕ} {node : ℕ → Ptr} {xs : List Event}
    → IsFresh h fresh
    → Chain h node f xs
    → Outside node f xs fresh
not-mem-fresh new c k lo hi e = let (n, got) = load-job c k lo hi in ground (arith, new.unused)

module _ (fresh : Ptr) (s : System) {f d : ℕ} {node : ℕ → Ptr} where
  pub produce-Moved :
      (p : Producer)
      → p ≢ idle
      → Allocates s.heap fresh p
      → Inv f d node s p s.consumer
      → Moves fresh f d s p (produce_at fresh s p)
  unfolding produce_at
  produce-Moved idle ne new i = absurd (ne refl)
  produce-Moved (add_load e) ne new i = (
    _,
    refl,
    record {
      f' = f;
      cheaper = ground arith;
      kept = (refl, refl, refl);
      supply = λ u. u;
      done = λ e. absurd (cc);
      node = node;
      inv = record {
        shape = i.shape;
        owned = i.owned;
        count = i.count;
        produces = i.last_at;
        consumes = i.consumes;
      };
    },
  )
  produce-Moved (add_new e n) ne new i = (
    _,
    refl,
    record {
      f' = f;
      cheaper = ground arith;
      kept = (refl, refl, refl);
      supply = λ u. tt;
      done = λ e. absurd (cc);
      node = node;
      inv = record {
        shape = record {
          chain = Chain-write i.chain fresh _ (not-mem-fresh new i.chain);
          first_at = i.first_at;
          divider_at = i.divider_at;
          last_at = i.last_at;
          cleaned = i.cleaned;
          behind = i.behind;
          jobs = i.jobs;
        };
        owned = Owned-new s.sent e n fresh _ i.owned;
        count = i.count;
        produces = (i.produces, new.ne_null, ground arith, not-mem-fresh new i.chain);
        consumes = i.consumes;
      };
    },
  )
  produce-Moved (add_link e n j) ne new i = add_link-Moved fresh s e n j i
  produce-Moved (add_store e n) ne new i = add_store-Moved fresh s e n i
  produce-Moved add_count ne new i = add_count-Moved fresh s i
  produce-Moved clean_test ne new i = clean_test-Moved fresh s i
  produce-Moved clean_take ne new i = clean_take-Moved fresh s i
  produce-Moved (clean_delete t) ne new i = clean_delete-Moved fresh s t i
  produce-Moved clean_count ne new i = clean_count-Moved fresh s i
