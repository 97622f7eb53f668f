-- ===== src/EventQueue/Invariant/Owning.antt =====
-- Which thread has the nodes of an EventQueue: each allocated node is one of the chain, or the
-- producer's alone.
use mimic_generator.Common.{
  ℕ, suc, ◌≤◌, ◌≡◌, sym, ap, ◌∙◌, Option, none, some, List, [], ◌∷◌, ◌++◌, arith, inl, inr, length,
}
use native.Mathlib.Decide.{ℕ_discrete}
use mimic_generator.Event.{Event}
use mimic_generator.EventQueue.Machine.{
  Ptr, EventJob, Heap, write, add_new, add_link, add_store, clean_take, clean_delete, clean_count,
  idle, new_job,
}
use mimic_generator.EventQueue.Chain.{extend, length-snoc}
use mimic_generator.EventQueue.Invariant.{Owned}

-- The constructor's dummy is the only node.
pub Owned-queue : (d : Ptr) → Owned (write (λ _. none) d (some (new_job none))) (λ _. d) 0 [] idle
Owned-queue d q = elim (ℕ_discrete q d) [
  | yes same ↦ inr (inl (0, omega arith, omega arith, sym same))
  | no other ↦ inl (ground arith)
]

module _ {h : Heap} {node : ℕ → Ptr} {f : ℕ} (xs : List Event) where
  pub Owned-new :
      (e : Event) (n fresh : Ptr) (o : Option EventJob)
      → Owned h node f xs (add_new e n)
      → Owned (write h fresh o) node f xs (add_link e n fresh)
  Owned-new e n fresh o own q = elim (ℕ_discrete q fresh) [
    | yes same ↦ inr (inr same)
    | no other ↦ elim (own q) [
      | inl free ↦ inl (ground arith)
      | inr (inl linked) ↦ inr (inl linked)
      | inr (inr none_held) ↦ absurd none_held
    ]
  ]

  pub Owned-link :
      (e : Event) (n job : Ptr) (o : Option EventJob)
      → f ≤ length xs
      → n ≡ node (length xs)
      → Owned h node f xs (add_link e n job)
      → Owned (write h n o) (extend node (suc (length xs)) job) f (xs ++ e ∷ []) (add_store e n)
  Owned-link e n job o within at own q =
      let longer = length-snoc xs e in
      elim (ℕ_discrete q n) [
        | yes same ↦ inr (inl (length xs, within, omega (arith, longer), ground (arith, at, same)))
        | no other ↦ elim (own q) [
          | inl free ↦ inl (ground arith)
          | inr (inl (i, lo, hi, is)) ↦ inr (inl (i, lo, omega (arith, longer), ground arith))
          | inr (inr held) ↦
              inr (inl (suc (length xs), omega arith, omega (arith, longer), ground (arith, held)))
        ]
      ]

  pub Owned-take :
      {first : Ptr}
      → first ≡ node f
      → Owned h node f xs clean_take
      → Owned h node (suc f) xs (clean_delete first)
  Owned-take at own q = elim (own q) [
    | inl free ↦ inl free
    | inr (inl (i, lo, hi, is)) ↦ elim (ℕ_discrete i f) [
      | yes same ↦ inr (inr (sym is ∙ ap node same ∙ sym at))
      | no other ↦ inr (inl (i, omega arith, hi, is))
    ]
    | inr (inr none_held) ↦ absurd none_held
  ]

  pub Owned-delete :
      (tmp : Ptr)
      → Owned h node f xs (clean_delete tmp)
      → Owned (write h tmp none) node f xs clean_count
  Owned-delete tmp own q = elim (ℕ_discrete q tmp) [
    | yes same ↦ inl (ground arith)
    | no other ↦ elim (own q) [
      | inl free ↦ inl (ground arith)
      | inr (inl linked) ↦ inr (inl linked)
      | inr (inr held) ↦ absurd (other held)
    ]
  ]
