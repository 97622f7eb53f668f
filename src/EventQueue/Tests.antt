-- ===== src/EventQueue/Tests.antt =====
-- Runs of an EventQueue under a schedule, and the theorems at states that they reach.
mod Sockets
use mimic_generator.Common.{
  ℕ, ◌≡◌, refl, ◌≢◌, Option, none, some, List, [], ◌∷◌, ◌++◌, arith, inl, inr, Option-cases, map,
  ◌↔◌,
}
use native.Mathlib.Decide.{ℕ_discrete}
use mimic_generator.Common.Int.{pos, ◌+ℤ◌, ◌≤ℤ◌}
use mimic_generator.Event.{Event, new_event}
use mimic_generator.EventQueue.Machine.{
  Ptr, null, Heap, Producer, idle, add_new, Reply, no_call, Consumer, returned, event, no_event,
  time, System, new_queue, produce, consume, Allocates, Reach, start, later, call_add, call_clean,
  call_get, call_time, produces, consumes, clean_delete, get_job,
}
use mimic_generator.EventQueue.Safety.{
  producer-no_fault, consumer-no_fault, got-sent, get_test-empty, time_read-next, num_events-bounds,
}
use mimic_generator.EventQueue.Races.{Apart, writes, reads, writes-reads-Apart}
use mimic_generator.EventQueue.Spec.{push, pop, next_time}
use mimic_generator.EventQueue.Calls.{add_event, get_event, next_event_time}
use mimic_generator.EventQueue.Destroy.{destroy, destroy-returns}
use mimic_generator.EventQueue.Refines.{
  Rests, Represents, add_event-push, get_event-pop, next_event_time-next_time,
}

data Action : Type 0 where
  adds : Event → Action
  cleans gets times : Action
  p : (fresh : Ptr) → Action
  c : Action

is_idle? : (q : Producer) → Option (q ≡ idle)
is_idle? idle = some refl
is_idle? _ = none

is_returned? : (q : Consumer) → Option ((r : Reply) × (q ≡ returned r))
is_returned? (returned r) = some (r, refl)
is_returned? _ = none

allocates? : (h : Heap) (fresh : Ptr) (q : Producer) → Option (Allocates h fresh q)
unfolding ℕ_discrete
allocates? h fresh (add_new e n) = elim (Option-cases (h fresh)) [
  | inl free ↦ elim (ℕ_discrete fresh null) [
    | yes at ↦ none
    | no ne ↦ some (record { ne_null = ne; unused = free })
  ]
  | inr used ↦ none
]
allocates? h fresh idle = some tt
allocates? h fresh q = some tt

abbrev State : Type 0
State = (s : System) × Reach s

turn : State → Action → State
unfolding is_idle? is_returned? allocates?
turn (s, r) (adds e) = elim (is_idle? s.producer) [
  | none ↦ (s, r)
  | some at ↦ (_, later r (call_add e at refl))
]
turn (s, r) cleans = elim (is_idle? s.producer) [
  | none ↦ (s, r)
  | some at ↦ (_, later r (call_clean at refl))
]
turn (s, r) gets = elim (is_returned? s.consumer) [
  | none ↦ (s, r)
  | some (reply, at) ↦ (_, later r (call_get reply at refl))
]
turn (s, r) times = elim (is_returned? s.consumer) [
  | none ↦ (s, r)
  | some (reply, at) ↦ (_, later r (call_time reply at refl))
]
turn (s, r) (p fresh) = elim (allocates? s.heap fresh s.producer) [
  | none ↦ (s, r)
  | some new ↦ elim (Option-cases (produce fresh s)) [
    | inl fault ↦ (s, r)
    | inr (t, e) ↦ (t, later r (produces fresh new e))
  ]
]
turn (s, r) c = elim (Option-cases (consume s)) [
  | inl fault ↦ (s, r)
  | inr (t, e) ↦ (t, later r (consumes e))
]

play : State → List Action → State
unfolding turn
play s [] = s
play s (a ∷ rest) = play (turn s a) rest

abbrev at_time : ℕ → Event
at_time n = record new_event { ms_from_start = pos n }

abbrev fresh_queue : State
fresh_queue = (new_queue 1, start 1 (λ e. omega arith))

-- The accesses of one call of `addEvent` that finds nothing to clean up.
abbrev added : Ptr → List Action
added n = p n ∷ p n ∷ p n ∷ p n ∷ p n ∷ p n ∷ []

abbrev script : List Action → State
unfolding play produce consume new_queue ◌+ℤ◌
script = play fresh_queue

-- The producer is about to link node 2 in; the consumer has found the queue empty.
abbrev linking : State
linking = script (adds (at_time 7) ∷ p 2 ∷ p 2 ∷ gets ∷ c ∷ c ∷ [])

-- One event, at time 7, and both threads between calls.
abbrev one : State
one = script (adds (at_time 7) ∷ added 2)

-- The producer is about to delete node 1 while the consumer reads node 2.
abbrev deleting : State
deleting = script (
    adds (at_time 7) ∷ added 2
    ++ adds (at_time 9)
      ∷ p 3
      ∷ p 3
      ∷ p 3
      ∷ p 3
      ∷ p 3
      ∷ gets
      ∷ c
      ∷ c
      ∷ c
      ∷ c
      ∷ c
      ∷ p 3
      ∷ p 3
      ∷ gets
      ∷ c
      ∷ c
      ∷ c
      ∷ [])

test_one : (one.0.sent ≡ at_time 7 ∷ []) × (one.0.producer ≡ idle) × (one.0.num_events ≡ pos 2)
unfolding script
test_one = (refl, refl, refl)

test_deleting :
    (deleting.0.producer ≡ clean_delete 1)
    × (deleting.0.consumer ≡ get_job 2)
    × (deleting.0.got ≡ some (at_time 7) ∷ [])
unfolding script
test_deleting = (refl, refl, refl)

delete-ne-idle : clean_delete 1 ≢ idle
delete-ne-idle e = cc

get_job-ne-returned : (r : Reply) → get_job 2 ≢ returned r
get_job-ne-returned r e = cc

producer-no_fault_example : (t : System) × (produce 3 deleting.0 ≡ some t)
unfolding script
producer-no_fault_example = producer-no_fault 3 deleting.1 delete-ne-idle tt

consumer-no_fault_example : (t : System) × (consume deleting.0 ≡ some t)
unfolding script
consumer-no_fault_example = consumer-no_fault deleting.1 get_job-ne-returned

got-sent_example :
    (unread : List Event) × (map some deleting.0.sent ≡ deleting.0.got ++ map some unread)
got-sent_example = got-sent deleting.1

num_events-bounds_example : (pos 2 ≤ℤ one.0.num_events +ℤ pos 0) × (one.0.num_events ≤ℤ pos 2)
unfolding script
num_events-bounds_example = num_events-bounds one.1 refl

writes-reads-Apart_example :
    Apart (writes deleting.0.producer) (reads deleting.0.heap deleting.0.consumer)
writes-reads-Apart_example = writes-reads-Apart deleting.1

add_event-push_example :
    (t : System) × (add_event 3 (at_time 9) one.0 ≡ some t)
    × Rests one.0 t (push (at_time 7 ∷ []) (at_time 9))
unfolding script
add_event-push_example =
    add_event-push 3 (at_time 9) (at_time 7 ∷ []) one.1 refl
      (record { ne_null = λ e. omega arith; unused = refl }) refl

get_event-pop_example :
    (t : System) × (get_event one.0 ≡ some t)
    × Represents t []
    × (t.consumer ≡ returned (event (some (at_time 7))))
    × (t.producer ≡ one.0.producer)
unfolding script pop
get_event-pop_example = get_event-pop no_call (at_time 7 ∷ []) one.1 refl refl

destroy-returns_example : (h : Heap) × (destroy one.0 ≡ some h) × ((p : Ptr) → h p ≡ none)
unfolding script
destroy-returns_example = destroy-returns one.1 refl
