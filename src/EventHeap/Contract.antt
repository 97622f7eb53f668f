-- ===== src/EventHeap/Contract.antt =====
-- std::priority_queue<Event, std::vector<Event>, Compare>, by what the standard documents: which of
-- several greatest items is on top is left open.
use mimic_generator.Common.{◌≡◌, ◌↔◌, Bool, true, false, List, [], ◌∷◌}
use mathlib.Core.List.{Perm, Mem}
use mimic_generator.Event.{Event}

pub record JobHeap (compare : Event → Event → Bool) : Type 1 where
  pub Heap : Type 0
  pub empty : Heap
  pub is_empty : Heap → Bool
  -- Without a meaning where `is_empty` holds.
  pub top : Heap → Event
  pub push : Heap → Event → Heap
  pub pop : Heap → Heap
  -- The items, in no particular order.
  pub contents : Heap → List Event
  pub contents-empty : contents empty ≡ []
  pub is_empty_iff : (h : Heap) → (is_empty h ≡ true) ↔ (contents h ≡ [])
  pub contents-push : (h : Heap) (e : Event) → Perm (contents (push h e)) (e ∷ contents h)
  pub contents-pop : (h : Heap) → is_empty h ≡ false → Perm (contents h) (top h ∷ contents (pop h))
  pub top_greatest :
      (h : Heap) → is_empty h ≡ false → (e : Event) → Mem e (contents h) → compare (top h) e ≡ false
