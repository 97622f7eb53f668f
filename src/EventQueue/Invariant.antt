-- ===== src/EventQueue/Invariant.antt =====
-- The invariant of the two threads of an EventQueue.
pub mod Owning
pub mod Adding
pub mod Cleaning
pub mod Produce
pub mod Consume
use mimic_generator.Common.{
  ℕ, zero, suc, ◌+◌, ◌-◌, ◌*◌, ◌≤◌, ◌<◌, ◌≡◌, refl, sym, ap, ◌∙◌, ◌≢◌, Option, none, some, List, [],
  ◌∷◌, ◌++◌, map, arith, if◌then◌else◌, ◌==◌, length, take, get_elem?, ◌⊎◌, take-append,
  get_elem?-append_lt, Bool-cases, true, false, inl, inr,
}
use native.Mathlib.Decide.{dec_lt, ℕ_discrete}
use mimic_generator.Common.Int.{ℤ, pos, ◌+ℤ◌, ◌-ℤ◌}
use mimic_generator.Event.{Event}
use mimic_generator.EventQueue.Machine.{
  Ptr, null, EventJob, Heap, write, load, new_job, Producer, idle, add_load, add_new, add_link,
  add_store, add_count, clean_test, clean_take, clean_delete, clean_count, Reply, Consumer,
  returned, get_load, get_test, get_next, get_job, get_store, time_load, time_test, time_next,
  time_read, System, IsFresh, produce_at, IsFresh,
}
use mimic_generator.EventQueue.Chain.{
  length-snoc, job_at-append, job_node, job_at, Chain, Outside, extend, load-inner, load-end,
  load-job, Chain-write, Chain-drop, Outside-drop, Chain-link, length-snoc,
}

-- The events linked in: those sent, and one that `last` has not passed.
abbrev pub linked : List Event → Producer → List Event
linked xs (add_store e _) = xs ++ e ∷ []
linked xs _ = xs

-- Nodes counted by `numEvents`, beside the linked ones but the first.
abbrev pub slack : Producer → ℕ
slack (add_store _ _) = 0
slack add_count = 0
slack (clean_delete _) = 2
slack clean_count = 2
slack _ = 1

-- What the local variables of the producer say: `d` events are got, `xs` are sent.
abbrev pub Produces : Heap → (ℕ → Ptr) → ℕ → ℕ → List Event → Producer → Type 0
Produces h node f d xs (add_new e n) = n ≡ node (length xs)
Produces h node f d xs (add_link e n j) =
    (n ≡ node (length xs)) × (j ≢ null) × (h j ≡ some (new_job (some e))) × Outside node f xs j
Produces h node f d xs (add_store e n) = n ≡ node (length xs)
Produces h node f d xs clean_take = f < d
Produces h node f d xs (clean_delete t) =
    (t ≢ null) × ((o : EventJob) × (h t ≡ some o)) × Outside node f xs t
Produces h node f d xs _ = Unit

-- The nodes that only a local variable of the producer points to.
abbrev pub Holds : Producer → Ptr → Type 0
Holds (add_link _ _ job) q = q ≡ job
Holds (clean_delete tmp) q = q ≡ tmp
Holds _ q = ⊥

-- Every address is unused, or one of a node of the chain, or of a node that the producer holds.
abbrev pub Owned : Heap → (ℕ → Ptr) → ℕ → List Event → Producer → Type 0
Owned h node f xs p =
    (q : Ptr) → (h q ≡ none) ⊎ ((i : ℕ) × (f ≤ i) × (i ≤ length xs) × (node i ≡ q)) ⊎ Holds p q

-- What the local variables of the consumer say, with the divider at `v`.
abbrev pub Consumes : Ptr → ℕ → List Event → Consumer → Type 0
Consumes v d xs (get_test n) = n ≡ v
Consumes v d xs (get_next n) = (n ≡ v) × (d < length xs)
Consumes v d xs (get_job n) = (n ≡ v) × (d < length xs)
Consumes v d xs (get_store n j) = (n ≡ v) × (d < length xs) × (j ≡ get_elem? xs d)
Consumes v d xs (time_test n) = n ≡ v
Consumes v d xs (time_next n) = (n ≡ v) × (d < length xs)
Consumes v d xs (time_read n) = (n ≡ v) × (d < length xs)
Consumes v d xs _ = Unit

-- The part of the invariant that is about memory and the logs: `f` nodes are cleaned up, `d` events
-- are got, `node` numbers the nodes, and the events of `xs` are linked in.
pub record Shape (f d : ℕ) (node : ℕ → Ptr) (heap : Heap) (first divider last : Ptr)
    (sent : List Event) (got : List (Option Event)) (xs : List Event) : Type 0 where
  pub chain : Chain heap node f xs
  pub first_at : first ≡ node f
  pub divider_at : divider ≡ node d
  pub last_at : last ≡ node (length sent)
  pub cleaned : f ≤ d
  pub behind : d ≤ length sent
  pub jobs : got ≡ map some (take d sent)

pub record Inv (f d : ℕ) (node : ℕ → Ptr) (s : System) (p : Producer) (c : Consumer) : Type 0 where
  pub shape : Shape f d node s.heap s.first s.divider s.last s.sent s.got (linked s.sent p)
  pub open shape use *
  pub owned : Owned s.heap node f (linked s.sent p) p
  pub count : s.num_events ≡ pos (slack p + length (linked s.sent p) - f)
  pub produces : Produces s.heap node f d s.sent p
  pub consumes : Consumes s.divider d s.sent c

pub record IsGood (s : System) : Type 0 where
  pub f : ℕ
  pub d : ℕ
  pub node : ℕ → Ptr
  pub inv : Inv f d node s s.producer s.consumer

-- An access does not fault, and keeps the invariant.
abbrev pub Goes : Option System → Type 0
Goes r = (t : System) × (r ≡ some t) × IsGood t

-- Accesses that the producer still makes in its call, with `k` nodes to clean up.
abbrev pub cost : Producer → ℕ → ℕ
cost idle k = 0
cost (add_load _) k = 6 + 4 * k
cost (add_new _ _) k = 5 + 4 * k
cost (add_link _ _ _) k = 4 + 4 * k
cost (add_store _ _) k = 3 + 4 * k
cost add_count k = 2 + 4 * k
cost clean_test k = 1 + 4 * k
cost clean_take k = 4 * k
cost (clean_delete _) k = 3 + 4 * k
cost clean_count k = 2 + 4 * k

-- The events that are sent when the producer's call returns.
abbrev pub sent_by : Producer → List Event → List Event
sent_by (add_load e) xs = xs ++ e ∷ []
sent_by (add_new e _) xs = xs ++ e ∷ []
sent_by (add_link e _ _) xs = xs ++ e ∷ []
sent_by (add_store e _) xs = xs ++ e ∷ []
sent_by _ xs = xs

-- The call has an address for `new`, or needs none any more.
abbrev pub Supplies : Heap → Ptr → Producer → Type 0
Supplies h p (add_load e) = IsFresh h p
Supplies h p (add_new e n) = IsFresh h p
Supplies h p _ = Unit

-- What one access of the producer at `p` changes.
pub record Moved (fresh : Ptr) (f d : ℕ) (s : System) (p : Producer) (t : System) : Type 0 where
  pub f' : ℕ
  pub node : ℕ → Ptr
  pub inv : Inv f' d node t t.producer t.consumer
  pub cheaper : cost t.producer (d - f') < cost p (d - f)
  pub kept :
      (t.consumer ≡ s.consumer) × (t.got ≡ s.got) × (sent_by t.producer t.sent ≡ sent_by p s.sent)
  pub supply : Supplies s.heap fresh p → Supplies t.heap fresh t.producer
  pub done : t.producer ≡ idle → f' ≡ d

-- The producer's next access does not fault.
abbrev pub Moves : Ptr → ℕ → ℕ → System → Producer → Option System → Type 0
Moves fresh f d s p r = (t : System) × (r ≡ some t) × Moved fresh f d s p t

pub eq_of_not_lt : {a b : ℕ} → a ≤ b → ¬ (a < b) → a ≡ b
eq_of_not_lt le ge = omega arith

-- What is linked in begins with what is sent.
pub linked_sent :
    (xs : List Event) (p : Producer) (i : ℕ)
    → i ≤ length xs
    → (i ≤ length (linked xs p)) × (job_at (linked xs p) i ≡ job_at xs i)
linked_sent xs (add_store e n) i le =
    (omega (arith, length-snoc xs e), job_at-append xs (e ∷ []) i le)
linked_sent xs p i le = (le, refl)
