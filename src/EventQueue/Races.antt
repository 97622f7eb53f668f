-- ===== src/EventQueue/Races.antt =====
-- The accesses of the two threads of an EventQueue to the fields of nodes, which are not atomic.
use mimic_generator.Common.{
  ℕ, suc, ◌<◌, ◌≡◌, ◌≢◌, none, some, List, [], ◌∷◌, arith, length, All, ◌⊎◌, inl, inr,
}
use mimic_generator.EventQueue.Machine.{
  Ptr, null, Heap, load, Producer, idle, add_link, clean_delete, Consumer, returned, get_next,
  get_job, get_store, time_next, time_read, System, Reach,
}
use mimic_generator.EventQueue.Invariant.{Inv}
use mimic_generator.EventQueue.Invariant.Consume.{load-divider}
use mimic_generator.EventQueue.Reachable.{Reach-IsGood}

pub data Field : Type 0 where
  eptr next : Field

-- A memory location: a field of a node.
abbrev pub Location : Type 0
Location = Ptr × Field

-- What the producer's next access writes to nodes that it has published, a deletion included.
abbrev pub writes : Producer → List Location
writes (add_link e n j) = (n, next) ∷ []
writes (clean_delete t) = (t, eptr) ∷ (t, next) ∷ []
writes _ = []

abbrev pub next_of : Heap → Ptr → Ptr
next_of h p = elim (load h p) [ none ↦ null | some n ↦ n.next ]

-- What the consumer's next access reads of nodes.
abbrev pub reads : Heap → Consumer → List Location
reads h (get_next d) = (d, next) ∷ []
reads h (get_job d) = (d, next) ∷ (next_of h d, eptr) ∷ []
reads h (get_store d j) = (d, next) ∷ []
reads h (time_next d) = (d, next) ∷ []
reads h (time_read d) = (d, next) ∷ (next_of h d, eptr) ∷ []
reads h _ = []

-- No location stands in both lists.
abbrev pub Apart : List Location → List Location → Type 0
Apart ws rs = All (λ w. All (λ r. w ≢ r) rs) ws

-- The consumer reads the divider's `next`, and its successor's `eptr`, while an event is unread.
abbrev MayRead : System → ℕ → (ℕ → Ptr) → Location → Type 0
MayRead s d node r = (d < length s.sent) × ((r ≡ (node d, next)) ⊎ (r ≡ (node (suc d), eptr)))

module _ (s : System) {f d : ℕ} {node : ℕ → Ptr} where
  reads-MayRead :
      (c : Consumer) → Inv f d node s s.producer c → All (MayRead s d node) (reads s.heap c)
  reads-MayRead (returned r) i = tt
  reads-MayRead (get_next n) i = ((i.consumes.1, inl (ground (arith, i.divider_at))), tt)
  reads-MayRead (get_job n) i =
      let at = load-divider s i i.consumes.1 n i.consumes.0 in
      (
        (i.consumes.1, inl (ground (arith, i.divider_at))),
        ((i.consumes.1, inr (ground (arith, at))), tt),
      )
  reads-MayRead (get_store n j) i = ((i.consumes.1, inl (ground (arith, i.divider_at))), tt)
  reads-MayRead (time_next n) i = ((i.consumes.1, inl (ground (arith, i.divider_at))), tt)
  reads-MayRead (time_read n) i =
      let at = load-divider s i i.consumes.1 n i.consumes.0 in
      (
        (i.consumes.1, inl (ground (arith, i.divider_at))),
        ((i.consumes.1, inr (ground (arith, at))), tt),
      )
  reads-MayRead c i = tt

  -- The producer writes the `next` of the last node sent, and a node that it has cut off.
  writes-not-MayRead :
      (p : Producer) {c : Consumer} (r : Location)
      → Inv f d node s p c
      → MayRead s d node r
      → All (λ w. w ≢ r) (writes p)
  writes-not-MayRead idle r i m = tt
  writes-not-MayRead (add_link e n j) r i m =
      ((λ k. ground (arith, i.produces.0, i.cleaned, i.chain.distinct d (length s.sent))), tt)
  writes-not-MayRead (clean_delete t) r i m =
      let out = i.produces.2 in
      (
        (λ k. ground (arith, i.cleaned, out d, out (suc d))),
        ((λ k. ground (arith, i.cleaned, out d, out (suc d))), tt),
      )
  writes-not-MayRead p r i m = tt

All-swap :
    {A : Type 0} (P : A → A → Type 0) (xs ys : List A)
    → All (λ y. All (λ x. P x y) xs) ys
    → All (λ x. All (P x) ys) xs
All-swap P [] ys h = tt
All-swap P (x ∷ xs) ys h = (heads ys h, All-swap P xs ys (tails ys h))
  where
    heads : (zs : List _) → All (λ y. All (λ x'. P x' y) (x ∷ xs)) zs → All (P x) zs
    heads [] k = tt
    heads (z ∷ zs) k = (k.0.0, heads zs k.1)

    tails :
        (zs : List _)
        → All (λ y. All (λ x'. P x' y) (x ∷ xs)) zs
        → All (λ y. All (λ x'. P x' y) xs) zs
    tails [] k = tt
    tails (z ∷ zs) k = (k.0.1, tails zs k.1)

All-map :
    {A : Type 0} {P Q : A → Type 0} (xs : List A) → ((a : A) → P a → Q a) → All P xs → All Q xs
All-map [] f h = tt
All-map (x ∷ xs) f h = (f x h.0, All-map xs f h.1)

-- There is no data race: in every reachable state, no location that the producer's next access
-- writes or deletes is one that the consumer's next access reads.
pub writes-reads-Apart :
    {s : System} → Reach s → Apart (writes s.producer) (reads s.heap s.consumer)
writes-reads-Apart {s} r =
    let g = Reach-IsGood r in
    All-swap (λ w l. w ≢ l) (writes s.producer) (reads s.heap s.consumer)
      (All-map (reads s.heap s.consumer) (λ l m. writes-not-MayRead s s.producer l g.inv m)
        (reads-MayRead s s.consumer g.inv))
