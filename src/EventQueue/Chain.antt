-- ===== src/EventQueue/Chain.antt =====
-- The nodes of an EventQueue, as positions in the history of the events that were linked in.
use mimic_generator.Common.{
  ℕ, zero, suc, ◌≤◌, ◌<◌, ◌≡◌, refl, sym, ap, ◌∙◌, ◌≢◌, Option, none, some, List, [], ◌∷◌, ◌++◌,
  arith, if◌then◌else◌, ◌==◌, length, get_elem?, length-append, get_elem?-append_lt,
  get_elem?-append_last,
}
use native.Mathlib.Decide.{dec_lt}
use mimic_generator.Event.{Event}
use mimic_generator.EventQueue.Machine.{Ptr, null, EventJob, Heap, write, load, new_job}

abbrev pub job_node : Option Event → Ptr → EventJob
job_node e n = record { eptr = e; next = n }

-- Node 0 is the dummy, and node `suc k` holds the k-th event.
abbrev pub job_at : List Event → ℕ → Option Event
job_at xs zero = none
job_at xs (suc k) = get_elem? xs k

-- `node f`, `node (f + 1)`, … are distinct nodes, linked in order, which end with the last event.
pub record Chain (h : Heap) (node : ℕ → Ptr) (f : ℕ) (xs : List Event) : Type 0 where
  pub within : f ≤ length xs
  pub ne_null : (i : ℕ) → f ≤ i → i ≤ length xs → node i ≢ null
  pub distinct : (i j : ℕ) → f ≤ i → i < j → j ≤ length xs → node i ≢ node j
  pub inner :
      (i : ℕ) → f ≤ i → i < length xs → h (node i) ≡ some (job_node (job_at xs i) (node (suc i)))
  pub end : h (node (length xs)) ≡ some (job_node (job_at xs (length xs)) null)

pub length-snoc {ℓ} : {A : Type ℓ} (xs : List A) (a : A) → length (xs ++ a ∷ []) ≡ suc (length xs)
length-snoc xs a = omega (arith, length-append xs (a ∷ []))

pub job_at-append : (xs ys : List Event) (i : ℕ) → i ≤ length xs → job_at (xs ++ ys) i ≡ job_at xs i
job_at-append xs ys zero hi = refl
job_at-append xs ys (suc k) hi = get_elem?-append_lt xs ys k (omega arith)

-- `p` is no node of the chain.
abbrev pub Outside : (ℕ → Ptr) → ℕ → List Event → Ptr → Type 0
Outside node f xs p = (i : ℕ) → f ≤ i → i ≤ length xs → node i ≢ p

abbrev pub extend : (ℕ → Ptr) → ℕ → Ptr → ℕ → Ptr
extend node n p i = if i == n then p else node i

module _ {h : Heap} {node : ℕ → Ptr} {f : ℕ} {xs : List Event} (c : Chain h node f xs) where
  open c use {within, ne_null, distinct, inner, end}

  pub load-inner :
      (i : ℕ)
      → f ≤ i
      → i < length xs
      → load h (node i) ≡ some (job_node (job_at xs i) (node (suc i)))
  load-inner i lo hi = ground (arith, ne_null i, inner i)

  pub load-end : load h (node (length xs)) ≡ some (job_node (job_at xs (length xs)) null)
  load-end = ground (arith, ne_null (length xs), end)

  -- A node of the chain holds its job.
  pub load-job :
      (i : ℕ)
      → f ≤ i
      → i ≤ length xs
      → (n : Ptr) × (load h (node i) ≡ some (job_node (job_at xs i) n))
  load-job i lo hi = elim (dec_lt i (length xs)) [
    | yes lt ↦ (node (suc i), load-inner i lo lt)
    | no last ↦ (null, ground (arith, load-end))
  ]

  -- A write elsewhere keeps the chain.
  pub Chain-write :
      (p : Ptr) (o : Option EventJob) → Outside node f xs p → Chain (write h p o) node f xs
  Chain-write p o out = record {
    within = within;
    ne_null = ne_null;
    distinct = distinct;
    inner = λ i lo hi. ground (arith, out i, inner i);
    end = ground (arith, out (length xs), end);
  }

  -- The chain without its first node.
  pub Chain-drop : f < length xs → Chain h node (suc f) xs
  Chain-drop more = record {
    within = more;
    ne_null = λ i lo hi. ne_null i (omega arith) hi;
    distinct = λ i j lo lt hi. distinct i j (omega arith) lt hi;
    inner = λ i lo hi. inner i (omega arith) hi;
    end = end;
  }

  pub Outside-drop : f < length xs → Outside node (suc f) xs (node f)
  Outside-drop more i lo hi e = distinct f i (omega arith) (omega arith) hi (sym e)

  -- A new node is linked behind the last.
  pub Chain-link :
      (p : Ptr) (e : Event)
      → p ≢ null
      → h p ≡ some (new_job (some e))
      → Outside node f xs p
      → Chain
          (write h (node (length xs)) (some (job_node (job_at xs (length xs)) p)))
          (extend node (suc (length xs)) p)
          f
          (xs ++ e ∷ [])
  Chain-link p e ne new out = record {
    within = omega (arith, longer);
    ne_null = λ i lo hi. ground (arith, longer, ne_null i);
    distinct = λ i j lo lt hi. ground (arith, longer, distinct i j, out i);
    inner = λ i lo hi.
        ground (arith, longer, inner i, distinct i (length xs), job_at-append xs (e ∷ []) i);
    end = ground (
      arith,
      longer,
      out (length xs),
      ap (job_at (xs ++ e ∷ [])) longer ∙ get_elem?-append_last xs e,
    );
  }
    where
      longer : length (xs ++ e ∷ []) ≡ suc (length xs)
      longer = length-snoc xs e
