-- ===== src/EarlierHeap/Sorting.antt =====
-- src/event.cpp: what is printed is the sorted list of the times, whatever the heap does with equal
-- ones.
use mathlib.Core.Path.{subst, ap₂}
use mathlib.Core.Logic.{∥∥₁_elim}
use mathlib.Core.Logic.Or
use mathlib.Core.List.{
  Perm, Mem, mem-cons, mem-cons_self, mem-cons_of_mem, mem-map, not-mem-nil, append-nil,
  perm_middle,
}
use mathlib.Core.List.Perm
use native.Mathlib.Bridge.{le_prop}
use mimic_generator.Common.{
  ℕ, zero, suc, ◌<◌, ◌≡◌, refl, sym, ap, ◌∙◌, inl, inr, Option, none, some, List, [], ◌∷◌, ◌++◌,
  map, arith, length, Bool-cases, if◌then◌else◌, ◌>>=◌,
}
use mimic_generator.Common.Int.{ℤ, pos, ◌≤ℤ◌, leb_ℤ}
use mimic_generator.Event.{Event}
use mimic_generator.EventHeap.Contract.{JobHeap}
use mimic_generator.EventHeap.Order.{Earliest, Pops, length-Perm}
use mimic_generator.EventHeap
use mimic_generator.EventHeap.Order
use mimic_generator.EarlierHeap.{
  compare_events, add_event, next_event, print_events, add_events, stub_events, event_main,
}

-- Insertion sort.
abbrev pub insert_time : ℤ → List ℤ → List ℤ
insert_time t [] = t ∷ []
insert_time t (x ∷ xs) = let rest = insert_time t xs in if leb_ℤ t x then t ∷ x ∷ xs else x ∷ rest

abbrev pub sort : List ℤ → List ℤ
sort [] = []
sort (t ∷ ts) = insert_time t (sort ts)

abbrev IsFirst : ℤ → List ℤ → Type 0
IsFirst t xs = (x : ℤ) → Mem x xs → t ≤ℤ x

abbrev Sorted : List ℤ → Type 0
Sorted [] = Unit
Sorted (t ∷ ts) = IsFirst t ts × Sorted ts

insert_time-Perm : (t : ℤ) (xs : List ℤ) → Perm (insert_time t xs) (t ∷ xs)
insert_time-Perm t [] = Perm.refl (t ∷ [])
insert_time-Perm t (x ∷ xs) = elim (Bool-cases (leb_ℤ t x)) [
  | inl le ↦ rw le (Perm.refl (t ∷ x ∷ xs))
  | inr gt ↦ rw gt (Perm.trans (Perm.cons x (insert_time-Perm t xs)) (Perm.swap t x xs))
]

IsFirst-cons : (t x : ℤ) (xs : List ℤ) → t ≤ℤ x → IsFirst t xs → IsFirst t (x ∷ xs)
IsFirst-cons t x xs le first y m = Or.elim le_prop (mem-cons.0 m) (λ e. rw e le) (first y)

insert_time-Sorted : (t : ℤ) (xs : List ℤ) → Sorted xs → Sorted (insert_time t xs)
insert_time-Sorted t [] s = ((λ x m. absurd (not-mem-nil m)), tt)
insert_time-Sorted t (x ∷ xs) (first, s) = elim (Bool-cases (leb_ℤ t x)) [
  | inl le ↦
      let t_le : t ≤ℤ x = ground arith in
      rw le (IsFirst-cons t x xs t_le (λ y m. let x_le = first y m in omega arith), (first, s))
  | inr gt ↦
      let x_le : x ≤ℤ t = ground arith in
      rw gt (
        λ y m. IsFirst-cons x t xs x_le first y ((Perm.mem_iff (insert_time-Perm t xs)).0 m),
        insert_time-Sorted t xs s,
      )
]

sort-Perm : (ts : List ℤ) → Perm (sort ts) ts
sort-Perm [] = Perm.nil
sort-Perm (t ∷ ts) = Perm.trans (insert_time-Perm t (sort ts)) (Perm.cons t (sort-Perm ts))

sort-Sorted : (ts : List ℤ) → Sorted (sort ts)
sort-Sorted [] = tt
sort-Sorted (t ∷ ts) = insert_time-Sorted t (sort ts) (sort-Sorted ts)

first_le : (x y : ℤ) (ys : List ℤ) → IsFirst y ys → Mem x (y ∷ ys) → y ≤ℤ x
first_le x y ys first m = Or.elim le_prop (mem-cons.0 m) (λ e. rw e (omega arith)) (first x)

antisym : (x y : ℤ) → x ≤ℤ y → y ≤ℤ x → x ≡ y
antisym x y le ge = ground arith

-- A list has one sorted order.
Sorted-unique : (xs ys : List ℤ) → Sorted xs → Sorted ys → Perm xs ys → xs ≡ ys
Sorted-unique [] [] s s' p = refl
Sorted-unique [] (y ∷ ys) s s' p = absurd (not-mem-nil ((Perm.mem_iff p).1 mem-cons_self))
Sorted-unique (x ∷ xs) [] s s' p = absurd (not-mem-nil ((Perm.mem_iff p).0 mem-cons_self))
Sorted-unique (x ∷ xs) (y ∷ ys) (first, s) (first', s') p =
    let same =
      antisym x y (first_le y x xs first ((Perm.mem_iff p).1 mem-cons_self))
        (first_le x y ys first' ((Perm.mem_iff p).0 mem-cons_self)) in
    let q : Perm (y ∷ xs) (y ∷ ys) = subst (λ z. Perm (z ∷ xs) (y ∷ ys)) same p in
    ap₂ (◌∷◌) same (Sorted-unique xs ys s s' (Perm.cons_inv q))

abbrev pub times : List Event → List ℤ
times es = map (λ e. e.ms_from_start) es

module _ (J : JobHeap compare_events) where
  -- `next_event` is `nextEvent` of EventHeap.
  next_event-Pops : (h : J.Heap) → Pops J h (next_event J h)
  unfolding next_event EventHeap.next_event
  next_event-Pops h = EventHeap.Order.next_event-Pops J h

  -- What is printed of a heap.
  abbrev Prints : ℕ → J.Heap → Type 0
  Prints k h =
      (ts : List ℤ) × (print_events J k h ≡ some ts) × Perm ts (times (J.contents h)) × Sorted ts

  times-IsFirst : (e : Event) (es : List Event) → Earliest e es → IsFirst e.ms_from_start (times es)
  times-IsFirst e es first t m =
      ∥∥₁_elim (mem-map.0 m) le_prop (λ w. subst (λ x. e.ms_from_start ≤ℤ x) w.2 (first w.0 w.1))

  prints :
      (k : ℕ) (h : J.Heap) (r : J.Heap × Option Event)
      → Pops J h r
      → length (J.contents h) < suc k
      → ((h' : J.Heap) → length (J.contents h') < k → Prints k h')
      → (ts : List ℤ) × ((elim r.1 as (λ _. Option (List ℤ)) [
        | none ↦ some []
        | some e ↦ print_events J k r.0 >>= (λ ts. some (e.ms_from_start ∷ ts))
      ])
          ≡ some ts)
        × Perm ts (times (J.contents h))
        × Sorted ts
  prints k h (h', none) (gone, _) enough rest = ([], refl, rw gone Perm.nil, tt)
  prints k h (h', some e) (p, first) enough rest =
      let (ts, at, q, s) = rest h' (omega (arith, length-Perm p)) in
      let all = Perm.map (λ (x : Event). x.ms_from_start) p in
      (
        e.ms_from_start ∷ ts,
        rw at refl,
        Perm.trans (Perm.cons e.ms_from_start q) (Perm.symm all),
        (
          λ t m.
              times-IsFirst e (J.contents h) first t
                ((Perm.mem_iff all).1 (mem-cons_of_mem e.ms_from_start ((Perm.mem_iff q).0 m))),
          s,
        ),
      )

  print_events-Prints : (k : ℕ) (h : J.Heap) → length (J.contents h) < k → Prints k h
  unfolding print_events
  print_events-Prints zero h enough = absurd (omega arith)
  print_events-Prints (suc k) h enough =
      prints k h (next_event J h) (next_event-Pops h) enough (print_events-Prints k)

  add_events-Perm :
      (es : List Event) (h : J.Heap) → Perm (J.contents (add_events J es h)) (es ++ J.contents h)
  unfolding add_events add_event
  add_events-Perm [] h = Perm.refl (J.contents h)
  add_events-Perm (e ∷ es) h =
      Perm.trans (add_events-Perm es (J.push h e))
        (Perm.trans (Perm.append_left es (J.contents-push h e)) (perm_middle es (J.contents h)))

  -- With more fuel than events, what is printed of the events that were added to an empty heap is the
  -- list of their times as insertion sort orders it, whichever of several equal ones the heap has on
  -- top.
  pub print_events-sort :
      (k : ℕ) (es : List Event)
      → length es < k
      → print_events J k (add_events J es J.empty) ≡ some (sort (times es))
  print_events-sort k es enough =
      let p : Perm (J.contents (add_events J es J.empty)) es =
        Perm.trans (add_events-Perm es J.empty) (
          subst (λ c. Perm (es ++ c) es) (sym J.contents-empty)
            (subst (λ c. Perm c es) (sym (append-nil es)) (Perm.refl es))) in
      let (ts, at, q, s) =
        print_events-Prints k (add_events J es J.empty) (omega (arith, length-Perm p)) in
      let all = Perm.map (λ (x : Event). x.ms_from_start) p in
      let sorted = Perm.trans q (Perm.trans all (Perm.symm (sort-Perm (times es)))) in
      at ∙ ap some (Sorted-unique ts (sort (times es)) s (sort-Sorted (times es)) sorted)

  -- `eventmain` prints 1, 2, 2 and 3.
  pub event_main-times : event_main J 5 ≡ some (pos 1 ∷ pos 2 ∷ pos 2 ∷ pos 3 ∷ [])
  unfolding event_main
  event_main-times = print_events-sort 5 stub_events (omega arith)
