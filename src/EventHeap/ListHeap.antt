-- ===== src/EventHeap/ListHeap.antt =====
-- A priority queue that meets the contract: a list in the order of the times.
use mathlib.Core.List.{Perm, Mem, mem-cons, not-mem-nil}
use mathlib.Core.List.Perm
use mathlib.Core.Logic.Or
use native.Mathlib.Bridge.{le_prop}
use mimic_generator.Common.{
  ◌≡◌, refl, ◌↔◌, inl, inr, Bool, true, false, List, [], ◌∷◌, arith, if◌then◌else◌, Bool-cases, All,
}
use mimic_generator.Common.Int.{◌≤ℤ◌}
use mimic_generator.Event.{Event, new_event}
use mimic_generator.EventHeap.{compare_events}
use mimic_generator.EventHeap.Contract.{JobHeap}

abbrev pub Earliest : Event → List Event → Type 0
Earliest e = All (λ x. e.ms_from_start ≤ℤ x.ms_from_start)

abbrev pub Ordered : List Event → Type 0
Ordered [] = Unit
Ordered (e ∷ xs) = Earliest e xs × Ordered xs

abbrev pub insert : List Event → Event → List Event
insert [] e = e ∷ []
insert (x ∷ xs) e = if compare_events x e then e ∷ x ∷ xs else x ∷ insert xs e

pub insert-perm : (xs : List Event) (e : Event) → Perm (insert xs e) (e ∷ xs)
insert-perm [] e = Perm.refl (e ∷ [])
insert-perm (x ∷ xs) e = elim (Bool-cases (compare_events x e)) [
  | inl before ↦ rw before (Perm.refl (e ∷ x ∷ xs))
  | inr after ↦ rw after (Perm.trans (Perm.cons x (insert-perm xs e)) (Perm.swap e x xs))
]

Earliest-insert :
    (y : Event) (xs : List Event) (e : Event)
    → Earliest y xs
    → y.ms_from_start ≤ℤ e.ms_from_start
    → Earliest y (insert xs e)
Earliest-insert y [] e first le = (le, tt)
Earliest-insert y (x ∷ xs) e first le = ground (arith, Earliest-insert y xs e first.1 le)

Earliest-mono :
    (y x : Event) (xs : List Event)
    → y.ms_from_start ≤ℤ x.ms_from_start
    → Earliest x xs
    → Earliest y xs
Earliest-mono y x [] le first = tt
Earliest-mono y x (z ∷ xs) le first = (omega arith, Earliest-mono y x xs le first.1)

pub insert-Ordered : (xs : List Event) (e : Event) → Ordered xs → Ordered (insert xs e)
insert-Ordered [] e o = (tt, tt)
insert-Ordered (x ∷ xs) e o =
    ground (arith, insert-Ordered xs e o.1, Earliest-insert x xs e o.0, Earliest-mono e x xs)

abbrev pub top_of : List Event → Event
top_of [] = new_event
top_of (e ∷ xs) = e

abbrev pub rest_of : List Event → List Event
rest_of [] = []
rest_of (e ∷ xs) = xs

abbrev pub is_nil : List Event → Bool
is_nil [] = true
is_nil (e ∷ xs) = false

pub is_nil_iff : (xs : List Event) → (is_nil xs ≡ true) ↔ (xs ≡ [])
is_nil_iff [] = (λ e. refl, λ e. refl)
is_nil_iff (x ∷ xs) = (λ e. absurd (cc), λ e. absurd (cc))

pub pop-perm : (xs : List Event) → is_nil xs ≡ false → Perm xs (top_of xs ∷ rest_of xs)
pop-perm [] e = absurd (cc)
pop-perm (x ∷ xs) e = Perm.refl (x ∷ xs)

le_of_Earliest :
    (y : Event) (xs : List Event)
    → Earliest y xs
    → (x : Event) → Mem x xs
    → y.ms_from_start ≤ℤ x.ms_from_start
le_of_Earliest y [] first x m = absurd (not-mem-nil m)
le_of_Earliest y (z ∷ xs) first x m =
    Or.elim le_prop (mem-cons.0 m) (λ e. rw e first.0) (le_of_Earliest y xs first.1 x)

pub top-greatest :
    (xs : List Event)
    → Ordered xs
    → is_nil xs ≡ false
    → (e : Event) → Mem e xs
    → compare_events (top_of xs) e ≡ false
top-greatest [] o e x m = absurd (cc)
top-greatest (y ∷ ys) o e x m = ground (arith, le_of_Earliest y (y ∷ ys) (omega arith, o.0) x m)

-- An ordered list.
pub record OrderedList : Type 0 where
  pub items : List Event
  pub ordered : Ordered items

pub rest-Ordered : (xs : List Event) → Ordered xs → Ordered (rest_of xs)
rest-Ordered [] o = tt
rest-Ordered (x ∷ xs) o = o.1

abbrev pub list_heap : JobHeap compare_events
list_heap = record {
  Heap = OrderedList;
  empty = record { items = []; ordered = tt };
  is_empty = λ h. is_nil h.items;
  top = λ h. top_of h.items;
  push = λ h e. record { items = insert h.items e; ordered = insert-Ordered h.items e h.ordered };
  pop = λ h. record { items = rest_of h.items; ordered = rest-Ordered h.items h.ordered };
  contents = λ h. h.items;
  contents-empty = refl;
  is_empty_iff = λ h. is_nil_iff h.items;
  contents-push = λ h e. insert-perm h.items e;
  contents-pop = λ h e. pop-perm h.items e;
  top_greatest = λ h ne e m. top-greatest h.items h.ordered ne e m;
}
