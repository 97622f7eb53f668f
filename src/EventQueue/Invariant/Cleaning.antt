-- ===== src/EventQueue/Invariant/Cleaning.antt =====
-- Every access of `cleanUp` goes through and keeps the invariant.
use mimic_generator.Common.{
  ℕ, suc, ◌<◌, ◌≡◌, refl, sym, ap, ◌∙◌, none, arith, ◌==◌, length, Bool-cases, ==_iff, true, ◌∙◌,
  false, inl, inr,
}
use native.Mathlib.Decide.{dec_lt}
use mimic_generator.Common.Int.{◌-ℤ◌}
use mimic_generator.EventQueue.Machine.{
  Ptr, write, idle, clean_test, clean_take, clean_delete, clean_count, System, produce_at,
}
use mimic_generator.EventQueue.Chain.{load-inner, Chain-write, Chain-drop, Outside-drop}
use mimic_generator.EventQueue.Invariant.{Inv, Moves, eq_of_not_lt}
use mimic_generator.EventQueue.Invariant.Owning.{Owned-take, Owned-delete}

module _ (fresh : Ptr) (s : System) {f d : ℕ} {node : ℕ → Ptr} where
  pub clean_test-Moved :
      Inv f d node s clean_test s.consumer
      → Moves fresh f d s clean_test (produce_at fresh s clean_test)
  unfolding produce_at
  clean_test-Moved i = elim (Bool-cases (s.first == s.divider)) [
    | inl same ↦ (
      record s { producer = idle },
      rw same,
      record {
        f' = f;
        cheaper = ground arith;
        kept = (refl, refl, refl);
        supply = λ u. tt;
        done = λ e. met same i;
        node = node;
        inv = record {
          shape = i.shape;
          owned = i.owned;
          count = i.count;
          produces = tt;
          consumes = i.consumes;
        };
      },
    )
    | inr other ↦ (
      record s { producer = clean_take },
      rw other,
      record {
        f' = f;
        cheaper = ground arith;
        kept = (refl, refl, refl);
        supply = λ u. tt;
        done = λ e. absurd (cc);
        node = node;
        inv = record {
          shape = i.shape;
          owned = i.owned;
          count = i.count;
          produces = lt_of_ne other i;
          consumes = i.consumes;
        };
      },
    )
  ]
    where
      lt_of_ne : (s.first == s.divider) ≡ false → Inv f d node s clean_test s.consumer → f < d
      lt_of_ne other i = elim (dec_lt f d) [
        | yes lt ↦ lt
        | no ge ↦ ground (arith, i.first_at, i.divider_at, ap node (eq_of_not_lt i.cleaned ge))
      ]

      met : (s.first == s.divider) ≡ true → Inv f d node s clean_test s.consumer → f ≡ d
      met same i = elim (dec_lt f d) [
        | yes lt ↦ absurd (
            i.chain.distinct f d (omega arith) lt i.behind
              (sym i.first_at ∙ (==_iff s.first s.divider).0 same ∙ i.divider_at))
        | no ge ↦ eq_of_not_lt i.cleaned ge
      ]

  pub clean_take-Moved :
      Inv f d node s clean_take s.consumer
      → Moves fresh f d s clean_take (produce_at fresh s clean_take)
  unfolding produce_at
  clean_take-Moved i =
      let more : f < length s.sent = omega arith in
      (
        record s { first = node (suc f); producer = clean_delete s.first },
        ground (arith, load-inner i.chain f),
        record {
          f' = suc f;
          cheaper = ground arith;
          kept = (refl, refl, refl);
          supply = λ u. tt;
          done = λ e. absurd (cc);
          node = node;
          inv = record {
            shape = record {
              chain = Chain-drop i.chain more;
              first_at = refl;
              divider_at = i.divider_at;
              last_at = i.last_at;
              cleaned = i.produces;
              behind = i.behind;
              jobs = i.jobs;
            };
            owned = Owned-take s.sent i.first_at i.owned;
            count = rw i.count (ground arith);
            produces = rw i.first_at (
              i.chain.ne_null f (omega arith) (omega arith),
              (_, i.chain.inner f (omega arith) more),
              Outside-drop i.chain more,
            );
            consumes = i.consumes;
          };
        },
      )

  pub clean_delete-Moved :
      (t : Ptr)
      → Inv f d node s (clean_delete t) s.consumer
      → Moves fresh f d s (clean_delete t) (produce_at fresh s (clean_delete t))
  unfolding produce_at
  clean_delete-Moved t i = (
    record s { heap = write s.heap t none; producer = clean_count },
    ground (arith, i.produces.1.1),
    record {
      f' = f;
      cheaper = ground arith;
      kept = (refl, refl, refl);
      supply = λ u. tt;
      done = λ e. absurd (cc);
      node = node;
      inv = record {
        shape = record {
          chain = Chain-write i.chain t none i.produces.2;
          first_at = i.first_at;
          divider_at = i.divider_at;
          last_at = i.last_at;
          cleaned = i.cleaned;
          behind = i.behind;
          jobs = i.jobs;
        };
        owned = Owned-delete s.sent t i.owned;
        count = i.count;
        produces = tt;
        consumes = i.consumes;
      };
    },
  )

  pub clean_count-Moved :
      Inv f d node s clean_count s.consumer
      → Moves fresh f d s clean_count (produce_at fresh s clean_count)
  unfolding produce_at ◌-ℤ◌
  clean_count-Moved i = (
    _,
    refl,
    record {
      f' = f;
      cheaper = ground arith;
      kept = (refl, refl, refl);
      supply = λ u. tt;
      done = λ e. absurd (cc);
      node = node;
      inv = record {
        shape = i.shape;
        owned = i.owned;
        count = rw i.count (ground (arith, i.chain.within));
        produces = tt;
        consumes = i.consumes;
      };
    },
  )
