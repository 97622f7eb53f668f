-- ===== src/EventHeap/Order.antt =====
-- The events come out of an EventHeap in the order of their times.
use mathlib.Core.Logic.{∥∥₁_elim}
use mathlib.Core.List.{Perm, Permᴰ, Mem, mem-cons_of_mem}
use mathlib.Core.List.Perm
use native.Mathlib.Nat.{ℕ_set}
use mimic_generator.Common.{
  ℕ, zero, suc, ◌≤◌, ◌≡◌, refl, ap, ◌∙◌, inl, inr, Option, none, some, List, [], ◌∷◌, arith, length,
  Bool-cases, false,
}
use mimic_generator.Common.Int.{negsuc, ◌≤ℤ◌}
use mimic_generator.Event.{Event}
use mimic_generator.EventHeap.{compare_events, next_event_time, next_event}
use mimic_generator.EventHeap.Contract.{JobHeap}

length-Permᴰ : {A : Type 0} {xs ys : List A} → Permᴰ xs ys → length xs ≡ length ys
length-Permᴰ Permᴰ.nil = refl
length-Permᴰ (Permᴰ.cons e q) = ap suc (length-Permᴰ q)
length-Permᴰ (Permᴰ.swap e e') = refl
length-Permᴰ (Permᴰ.trans q r) = length-Permᴰ q ∙ length-Permᴰ r

pub length-Perm : {A : Type 0} {xs ys : List A} → Perm xs ys → length xs ≡ length ys
length-Perm {A} {xs} {ys} p = ∥∥₁_elim p (ℕ_set (length xs) (length ys)) length-Permᴰ

-- No event of `xs` is before `e`.
abbrev pub Earliest : Event → List Event → Type 0
Earliest e xs = (x : Event) → Mem x xs → e.ms_from_start ≤ℤ x.ms_from_start

abbrev pub IsOrdered : List Event → Type 0
IsOrdered [] = Unit
IsOrdered (e ∷ xs) = Earliest e xs × IsOrdered xs

not_before : (e x : Event) → compare_events e x ≡ false → e.ms_from_start ≤ℤ x.ms_from_start
not_before e x h = ground arith

-- Taking out the events that come first leaves what comes later.
Earliest-Perm : (e : Event) {xs ys : List Event} → Earliest e xs → Perm ys xs → Earliest e ys
Earliest-Perm e first p x m = first x ((Perm.mem_iff p).0 m)

nil_of_length : (xs : List Event) → length xs ≤ 0 → xs ≡ []
nil_of_length [] le = refl
nil_of_length (x ∷ xs) le = absurd (omega arith)

module _ (J : JobHeap compare_events) where
  -- What one call of `nextEvent` may do.
  abbrev pub Pops : J.Heap → J.Heap × Option Event → Type 0
  Pops h (h', none) = (J.contents h ≡ []) × (h' ≡ h)
  Pops h (h', some e) = Perm (J.contents h) (e ∷ J.contents h') × Earliest e (J.contents h)

  -- `nextEvent` returns a null pointer and changes nothing if the heap is empty; otherwise it takes
  -- out one event, and none of the events is before that one.
  pub next_event-Pops : (h : J.Heap) → Pops h (next_event J h)
  unfolding next_event
  next_event-Pops h = elim (Bool-cases (J.is_empty h)) [
    | inl gone ↦ rw gone ((J.is_empty_iff h).0 gone, refl)
    | inr some_left ↦
        rw some_left (
          J.contents-pop h some_left,
          λ x m. not_before (J.top h) x (J.top_greatest h some_left x m),
        )
  ]

  -- `nextEventTime` returns the time of the event that `nextEvent` takes out next, or -1 if it takes
  -- out none.
  pub next_event_time-next_event :
      (h : J.Heap)
      → next_event_time J h
        ≡ (elim (next_event J h).1 [ none ↦ negsuc 0 | some e ↦ e.ms_from_start ])
  unfolding next_event next_event_time
  next_event_time-next_event h = ground arith

  -- The events that repeated calls of `nextEvent` take out, with fuel.
  unfoldable pub drain : ℕ → J.Heap → List Event
  drain zero h = []
  drain (suc k) h = let (h', r) = next_event J h in elim r [ none ↦ [] | some e ↦ e ∷ drain k h' ]

  drain-next :
      (k : ℕ) (h h' : J.Heap) (r : Option Event)
      → next_event J h ≡ (h', r)
      → drain (suc k) h ≡ (elim r [ none ↦ [] | some e ↦ e ∷ drain k h' ])
  unfolding drain
  drain-next k h h' r e =
      ap (λ (q : J.Heap × Option Event). elim q.1 [ none ↦ [] | some x ↦ x ∷ drain k q.0 ]) e

  abbrev Drained : ℕ → J.Heap → Type 0
  Drained k h = Perm (drain k h) (J.contents h) × IsOrdered (drain k h)

  drained :
      (k : ℕ) (h : J.Heap)
      → length (J.contents h) ≤ suc k
      → (r : J.Heap × Option Event) → next_event J h ≡ r
      → Pops h r
      → ((h' : J.Heap) → length (J.contents h') ≤ k → Drained k h')
      → Drained (suc k) h
  unfolding drain
  drained k h le (h', none) e (gone, _) rest = rw (drain-next k h h' none e, gone) (Perm.nil, tt)
  drained k h le (h', some x) e (p, first) rest =
      let (q, ordered) = rest h' (omega (arith, length-Perm p)) in
      let all = Perm.trans (Perm.cons x q) (Perm.symm p) in
      rw (drain-next k h h' (some x) e)
        (all, ((λ y m. Earliest-Perm x first all y (mem-cons_of_mem x m)), ordered))

  -- Repeated calls of `nextEvent`, as many as the heap has events, take out every event once, in
  -- the order of their times.
  pub drain-IsOrdered :
      (k : ℕ) (h : J.Heap)
      → length (J.contents h) ≤ k
      → Perm (drain k h) (J.contents h) × IsOrdered (drain k h)
  unfolding drain
  drain-IsOrdered zero h le = rw (nil_of_length (J.contents h) le) (Perm.nil, tt)
  drain-IsOrdered (suc k) h le =
      drained k h le (next_event J h) refl (next_event-Pops h) (drain-IsOrdered k)
