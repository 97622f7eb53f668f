-- ===== src/Replay/Sleeping.antt =====
-- src/eventHandler.cpp, `loop`: how long the handler thread waits for epoll.
use mathlib.Core.Path.{subst}
use mimic_generator.Common.{ℕ, ◌≡◌, refl, sym, inl, inr, true, [], ◌∷◌, arith, Bool-cases}
use mimic_generator.Common.Int.{ℤ, pos, ◌-ℤ◌, ◌≤ℤ◌, ◌<ℤ◌, leb_ℤ, ltb_ℤ, to_int}
use mimic_generator.Event.{Event}
use mimic_generator.EventHeap.{compare_events}
use mimic_generator.EventHeap.Contract.{JobHeap}
use mimic_generator.EventQueue.Spec.{Fifo, next_time}
use mimic_generator.Os.{Os}
use mimic_generator.Connections.{Inet}
use mimic_generator.FileWorker.Events.{Numbers}
use mimic_generator.Replay.{
  waits, State, timeout, Step, queues, loads, enters_loop, handles, fails, looks, ends, defers,
  looks_again, sleeps, accepts, Reach, start, later,
}
use mimic_generator.Replay.Delivery.{Front, Reach-Delivers}

-- The wait ends when the first event of the queue is due, if that is later than now.
pub data Wait (now : ℤ) (q : Fifo) (timeout : ℤ) : Type 0 where
  no_wait : timeout ≡ pos 0 → Wait now q timeout
  until_due :
      (e : Event) (rest : Fifo)
      → q ≡ e ∷ rest
      → now <ℤ e.ms_from_start
      → timeout ≡ to_int (e.ms_from_start -ℤ now)
      → Wait now q timeout

is_later : (next now : ℤ) → ltb_ℤ (pos 0) (next -ℤ now) ≡ true → now <ℤ next
unfolding ◌-ℤ◌
is_later next now early = ground arith

is_time : (next now : ℤ) → pos 0 ≤ℤ now → now <ℤ next → leb_ℤ (pos 0) next ≡ true
is_time next now clock lt = ground arith

first_due :
    (now : ℤ) (q : Fifo)
    → pos 0 ≤ℤ now
    → now <ℤ next_time q
    → Wait now q (to_int (next_time q -ℤ now))
unfolding next_time
first_due now [] clock lt = absurd (ground arith)
first_due now (e ∷ q) clock lt = until_due e q refl lt refl

timeout-Wait :
    (next now : ℤ) (q : Fifo) → pos 0 ≤ℤ now → Front next q → Wait now q (timeout next now)
timeout-Wait next now q clock front = elim (Bool-cases (ltb_ℤ (pos 0) (next -ℤ now))) [
  | inr due ↦ no_wait (rw due refl)
  | inl early ↦
      let lt = is_later next now early in
      let at = front (is_time next now clock lt) in
      rw early (
        subst (λ t. Wait now q (to_int (t -ℤ now))) at
          (first_due now q clock (subst (λ t. now <ℤ t) (sym at) lt)))
]

module _ (os : Os) (inet : Inet) (numbers : Numbers) (to_get : ℕ) {J : JobHeap compare_events} where
  Step-clock : {s t : State J} → Step os inet numbers to_get s t → pos 0 ≤ℤ s.now → pos 0 ≤ℤ t.now
  Step-clock (queues heap e loaded next k) le = rw k le
  Step-clock (loads k w at e) le = rw e le
  Step-clock (enters_loop at k) le = rw k le
  Step-clock (handles q e at due got k) le = rw k le
  Step-clock (fails q at due got k) le = rw k le
  Step-clock (looks at k) le = rw k le
  Step-clock (ends at early k) le = rw k le
  Step-clock (defers n now h at after run k) le = rw k (omega arith)
  Step-clock (looks_again at k) le = rw k le
  Step-clock (sleeps at k) le = rw k le
  Step-clock (accepts n p h at run k) le = rw k le

  Reach-clock : {s : State J} → Reach os inet numbers to_get s → pos 0 ≤ℤ s.now
  Reach-clock (start s i) = i.clock
  Reach-clock (later r st) = Step-clock st (Reach-clock r)

  -- In every reachable state in which the handler thread is about to wait for epoll, its timeout is
  -- 0, or the queue has an event that is not due yet, and the timeout is the time that is left until
  -- the first one is, as an int.
  pub timeout-until_due :
      {s : State J}
      → Reach os inet numbers to_get s
      → s.place ≡ waits
      → Wait s.now s.handler.incoming_file_events (timeout s.next_event_time s.now)
  timeout-until_due {s} r at =
      timeout-Wait s.next_event_time s.now s.handler.incoming_file_events (Reach-clock r)
        ((Reach-Delivers os inet numbers to_get r).front (λ other. cc) (λ other. cc))
