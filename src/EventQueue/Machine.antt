-- ===== src/EventQueue/Machine.antt =====
-- src/eventQueue.cpp, class EventQueue: the lock-free queue as two threads over a heap of nodes.
-- A thread's program counter stands between two accesses to shared memory, and carries the local
-- variables that are live there. All atomics are sequentially consistent, as the code's are.
use mimic_generator.Common.{
  ℕ, ◌≡◌, ◌≢◌, Option, none, some, List, [], ◌∷◌, ◌++◌, if◌then◌else◌, ◌==◌,
}
use mimic_generator.Common.Int.{ℤ, pos, negsuc, ◌+ℤ◌, ◌-ℤ◌}
use mimic_generator.Event.{Event}

abbrev pub Ptr : Type 0
Ptr = ℕ

abbrev pub null : Ptr
null = 0

-- `eptr` is none for the dummy's null pointer.
pub record EventJob : Type 0 where
  pub eptr : Option Event
  pub next : Ptr

abbrev pub Heap : Type 0
Heap = Ptr → Option EventJob

-- A node is written, or given back by none.
abbrev pub write : Heap → Ptr → Option EventJob → Heap
write h p c a = if a == p then c else h a

-- Where the producer stands, in `addEvent` and in `cleanUp`.
pub data Producer : Type 0 where
  idle : Producer
  add_load : Event → Producer
  add_new : Event → (last_node : Ptr) → Producer
  add_link : Event → (last_node job : Ptr) → Producer
  add_store : Event → (last_node : Ptr) → Producer
  add_count : Producer
  clean_test : Producer
  clean_take : Producer
  clean_delete : (tmp : Ptr) → Producer
  clean_count : Producer

-- What the last call of the consumer returned.
pub data Reply : Type 0 where
  no_call : Reply
  event : Option Event → Reply
  no_event : Reply
  time : ℤ → Reply

-- Where the consumer stands, in `getEvent` and in `nextEventTime`.
pub data Consumer : Type 0 where
  returned : Reply → Consumer
  get_load : Consumer
  get_test : (divider_node : Ptr) → Consumer
  get_next : (divider_node : Ptr) → Consumer
  get_job : (divider_node : Ptr) → Consumer
  get_store : (divider_node : Ptr) → (job : Option Event) → Consumer
  time_load : Consumer
  time_test : (divider_node : Ptr) → Consumer
  time_next : (divider_node : Ptr) → Consumer
  time_read : (divider_node : Ptr) → Consumer

-- The members of the queue, the two threads, and two logs that no thread reads: the events whose
-- node `last` has passed, and the jobs that `divider` has passed.
pub record System : Type 0 where
  pub heap : Heap
  pub first : Ptr
  pub divider : Ptr
  pub last : Ptr
  pub num_events : ℤ
  pub producer : Producer
  pub consumer : Consumer
  pub sent : List Event
  pub got : List (Option Event)

-- `*p`: none at the null pointer and at an address that holds no node, a fault.
abbrev pub load : Heap → Ptr → Option EventJob
load h p = if p == null then none else h p

-- `new eventJob(e)`
abbrev pub new_job : Option Event → EventJob
new_job e = record { eptr = e; next = null }

-- The constructor, with the dummy at `d`.
unfoldable pub new_queue : Ptr → System
new_queue d = record {
  heap = write (λ _. none) d (some (new_job none));
  first = d;
  divider = d;
  last = d;
  num_events = pos 1;
  producer = idle;
  consumer = returned no_call;
  sent = [];
  got = [];
}

-- The access of the producer at `p`. `fresh` is the address that `new` returns.
unfoldable pub produce_at : (fresh : Ptr) → System → Producer → Option System
produce_at fresh s idle = none
produce_at fresh s (add_load e) = some (record s { producer = add_new e s.last })
produce_at fresh s (add_new e last_node) = some (record s {
  heap = write s.heap fresh (some (new_job (some e)));
  producer = add_link e last_node fresh;
})
produce_at fresh s (add_link e last_node job) = elim (load s.heap last_node) [
  | none ↦ none
  | some n ↦ some (record s {
    heap = write s.heap last_node (some (record n { next = job }));
    producer = add_store e last_node;
  })
]
produce_at fresh s (add_store e last_node) = elim (load s.heap last_node) [
  | none ↦ none
  | some n ↦ some (record s { last = n.next; producer = add_count; sent = s.sent ++ e ∷ [] })
]
produce_at fresh s add_count =
    some (record s { num_events = s.num_events +ℤ pos 1; producer = clean_test })
produce_at fresh s clean_test =
    some (record s { producer = if s.first == s.divider then idle else clean_take })
produce_at fresh s clean_take = elim (load s.heap s.first) [
  | none ↦ none
  | some n ↦ some (record s { first = n.next; producer = clean_delete s.first })
]
produce_at fresh s (clean_delete tmp) = elim (load s.heap tmp) [
  | none ↦ none
  | some n ↦ some (record s { heap = write s.heap tmp none; producer = clean_count })
]
produce_at fresh s clean_count =
    some (record s { num_events = s.num_events -ℤ pos 1; producer = clean_test })

unfoldable pub produce : (fresh : Ptr) → System → Option System
unfolding produce_at
produce fresh s = produce_at fresh s s.producer

-- The access of the consumer at `c`.
unfoldable pub consume_at : System → Consumer → Option System
consume_at s (returned r) = none
consume_at s get_load = some (record s { consumer = get_test s.divider })
consume_at s (get_test d) =
    some (record s { consumer = if d == s.last then returned no_event else get_next d })
consume_at s (get_next d) = elim (load s.heap d) [
  | none ↦ none
  | some n ↦ some (record s { consumer = if n.next == null then returned no_event else get_job d })
]
consume_at s (get_job d) = elim (load s.heap d) [
  | none ↦ none
  | some n ↦ elim (load s.heap n.next) [
    | none ↦ none
    | some j ↦ some (record s { consumer = get_store d j.eptr })
  ]
]
consume_at s (get_store d job) = elim (load s.heap d) [
  | none ↦ none
  | some n ↦
      some (record s { divider = n.next; consumer = returned (event job); got = s.got ++ job ∷ [] })
]
consume_at s time_load = some (record s { consumer = time_test s.divider })
consume_at s (time_test d) =
    some (record s { consumer = if d == s.last then returned (time (negsuc 0)) else time_next d })
consume_at s (time_next d) = elim (load s.heap d) [
  | none ↦ none
  | some n ↦
      some
        (record s { consumer = if n.next == null then returned (time (negsuc 0)) else time_read d })
]
consume_at s (time_read d) = elim (load s.heap d) [
  | none ↦ none
  | some n ↦ elim (load s.heap n.next) [
    | none ↦ none
    | some j ↦ elim j.eptr [
      | none ↦ none
      | some e ↦ some (record s { consumer = returned (time e.ms_from_start) })
    ]
  ]
]

unfoldable pub consume : System → Option System
unfolding consume_at
consume s = consume_at s s.consumer

pub record IsFresh (h : Heap) (p : Ptr) : Type 0 where
  pub ne_null : p ≢ null
  pub unused : h p ≡ none

-- The address that `new` returns is one that the queue does not hold.
abbrev pub Allocates : Heap → Ptr → Producer → Type 0
Allocates h p (add_new e n) = IsFresh h p
Allocates h p _ = Unit

-- One access of one thread, or a call that begins.
pub data Step (s t : System) : Type 0 where
  call_add : (e : Event) → s.producer ≡ idle → t ≡ record s { producer = add_load e } → Step s t
  call_clean : s.producer ≡ idle → t ≡ record s { producer = clean_test } → Step s t
  call_get : (r : Reply) → s.consumer ≡ returned r → t ≡ record s { consumer = get_load } → Step s t
  call_time :
      (r : Reply) → s.consumer ≡ returned r → t ≡ record s { consumer = time_load } → Step s t
  produces : (fresh : Ptr) → Allocates s.heap fresh s.producer → produce fresh s ≡ some t → Step s t
  consumes : consume s ≡ some t → Step s t

pub data Reach : System → Type 0 where
  start : (d : Ptr) → d ≢ null → Reach (new_queue d)
  later : {s t : System} → Reach s → Step s t → Reach t
