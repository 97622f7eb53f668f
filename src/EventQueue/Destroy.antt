-- ===== src/EventQueue/Destroy.antt =====
-- src/eventQueue.cpp, the destructor of EventQueue, which runs when both threads have ended.
use mimic_generator.Common.{
  ℕ, zero, suc, ◌+◌, ◌≤◌, ◌<◌, ◌≡◌, refl, ap, ◌∙◌, Option, none, some, List, arith, if◌then◌else◌,
  ◌==◌, length, false, inl, inr, sym,
}
use native.Mathlib.Decide.{dec_lt}
use mathlib.Core.Path.{subst}
use mimic_generator.Event.{Event}
use mimic_generator.EventQueue.Machine.{Ptr, null, Heap, write, load, idle, System, Reach}
use mimic_generator.EventQueue.Chain.{
  Chain, job_node, job_at, Chain-write, Chain-drop, Outside-drop,
}
use mimic_generator.EventQueue.Invariant.{Inv}
use mimic_generator.EventQueue.Reachable.{Reach-IsGood}

-- The loop of the destructor; a pass through a null pointer or a deleted node, and the end of the
-- fuel, are none.
unfoldable pub destroy_from : ℕ → Heap → (first : Ptr) → Option Heap
destroy_from zero h first = none
destroy_from (suc k) h first = if first == null then some h else elim (load h first) [
  | none ↦ none
  | some tmp ↦ destroy_from k (write h first none) tmp.next
]

-- The nodes are the dummy and one for each event that was sent, at most.
unfoldable pub destroy : System → Option Heap
destroy s = destroy_from (suc (suc (length s.sent))) s.heap s.first

-- The nodes from `f` on are deleted, and no node is made.
Clears : Heap → (ℕ → Ptr) → ℕ → List Event → Option Heap → Type 0
Clears h node f xs r =
    (h' : Heap) × (r ≡ some h')
    × ((i : ℕ) → f ≤ i → i ≤ length xs → h' (node i) ≡ none)
    × ((p : Ptr) → h p ≡ none → h' p ≡ none)

destroy_from-Clears :
    (k : ℕ) (h : Heap) (node : ℕ → Ptr) (f : ℕ) (xs : List Event)
    → Chain h node f xs
    → length xs < k + f
    → Clears h node f xs (destroy_from (suc k) h (node f))
unfolding Clears destroy_from
destroy_from-Clears zero h node f xs c lt = absurd (let w = c.within in omega arith)
destroy_from-Clears (suc k) h node f xs c lt = elim (dec_lt f (length xs)) [
  | yes more ↦
      let c' = Chain-write (Chain-drop c more) (node f) none (Outside-drop c more) in
      let (h', e, gone, kept) =
        destroy_from-Clears k (write h (node f) none) node (suc f) xs c' (omega arith) in
      let other : (node f == null) ≡ false = ground (arith, c.ne_null f) in
      (
        h',
        rw (other, c.inner f (omega arith) more) e,
        λ i lo hi. elim (dec_lt f i) [
          | yes later ↦ gone i later hi
          | no first ↦
              let same : node f ≡ node i = ap node (omega arith) in kept (node i) (ground arith)
        ],
        λ p none_at. kept p (ground arith),
      )
  | no last ↦
      let at : f ≡ length xs = let w = c.within in omega arith in
      let other : (node f == null) ≡ false = ground (arith, c.ne_null f) in
      let end : h (node f) ≡ some (job_node (job_at xs (length xs)) null) =
        ap (λ i. h (node i)) at ∙ c.end in
      (
        write h (node f) none,
        rw (other, end) refl,
        λ i lo hi. let same : node f ≡ node i = ap node (omega arith) in ground arith,
        λ p none_at. ground arith,
      )
]

-- After the last call of the producer the destructor returns: it dereferences neither a null pointer
-- nor a node that it has deleted. No address holds a node then, so each node that the queue has made
-- is deleted, by cleanUp or by the destructor.
pub destroy-returns :
    {s : System}
    → Reach s
    → s.producer ≡ idle
    → (h : Heap) × (destroy s ≡ some h) × ((p : Ptr) → h p ≡ none)
unfolding destroy Clears
destroy-returns {s} r at =
    let g = Reach-IsGood r in
    let i = subst (λ p. Inv g.f g.d g.node s p s.consumer) at g.inv in
    let (h, e, gone, kept) =
      destroy_from-Clears (suc (length s.sent)) s.heap g.node g.f s.sent i.chain (omega arith) in
    (
      h,
      ap (destroy_from (suc (suc (length s.sent))) s.heap) i.first_at ∙ e,
      λ p. elim (i.owned p) [
        | inl unused ↦ kept p unused
        | inr (inl (k, lo, hi, is)) ↦ ap h (sym is) ∙ gone k lo hi
        | inr (inr none_held) ↦ absurd none_held
      ],
    )
