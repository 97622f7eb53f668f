-- ===== src/NotifierTest.antt =====
-- src/eventTest.cpp: two threads that signal each other through notifiers of one eventfd, in two
-- versions: one that calls epoll itself, and one that uses a PollHandler.
pub mod Versions
mod Tests
use mimic_generator.Common.{
  ℕ, zero, suc, ◌+◌, Bool, true, false, Option, none, some, if◌then◌else◌, ltb, ◌>>=◌,
}
use mimic_generator.Common.Int.{ℤ, pos, negsuc, ◌==ℤ◌}
use mimic_generator.EventNotifier.{EventNotifier, is_me, read_signal, send_signal}
use mimic_generator.Os.{Os, Call, History, PollEvent, perform}
use mimic_generator.PollHandler.{
  PollHandler, poll_handler, watch_for_read, wait_for_events, Next, no_more, overrun, handed,
}
use mimic_generator.PollHandler

-- The signals that a thread has read, and its system calls.
pub record Dings : Type 0 where
  pub dings : ℕ
  pub calls : History

-- No event is handled where `epoll_wait` answers a negative number.
abbrev pub event_count : ℤ → ℕ
event_count (pos n) = n
event_count (negsuc n) = 0

module _ (os : Os) (en : EventNotifier) where
  -- One event of epoll.
  abbrev pub handle_event : PollEvent → Dings → Dings
  handle_event e s =
      if is_me en e.fd
      then record { dings = suc s.dings; calls = (read_signal os en s.calls).1 }
      else s

  abbrev pub signal : Dings → Dings
  signal s = record s { calls = (send_signal os en s.calls).1 }

  -- `workerThread` up to its loop: the epoll instance. None: the thread returns.
  unfoldable pub set_up : History → Option ℤ × History
  set_up h =
      let (epollfd, h) = perform os Call.epoll_create h in
      if epollfd ==ℤ negsuc 0
      then (none, h)
      else (let (status, h) = perform os (Call.epoll_add epollfd en.fd (1 + 2147483648)) h in
          if status ==ℤ negsuc 0 then (none, h) else (some epollfd, h))

  -- The loop over the events, with `n` of them left.
  unfoldable pub handle_events : (n j : ℕ) → (events : ℕ → PollEvent) → Dings → Dings
  handle_events zero j events s = s
  handle_events (suc n) j events s = handle_events n (suc j) events (handle_event (events j) s)

  -- A round of `workerThread`.
  unfoldable pub worker_round : (epollfd : ℤ) → Dings → Dings
  worker_round epollfd s =
      let wait = Call.epoll_wait epollfd (pos 100) in
      let (count, h) = perform os wait s.calls in
      signal (handle_events (event_count count) 0 (os.polled s.calls wait) (record s { calls = h }))

  -- The loop of `workerThread`. None, here and below: the fuel has run out.
  unfoldable pub worker_loop : ℕ → (epollfd : ℤ) → Dings → Option Dings
  worker_loop zero epollfd s = none
  worker_loop (suc k) epollfd s =
      let rest = worker_loop k epollfd (worker_round epollfd s) in
      if ltb s.dings 10 then rest else some s

  -- `workerThread2` up to its loop. None: the exception.
  unfoldable pub set_up_2 : (stale : ℕ → PollEvent) → History → Option PollHandler × History
  set_up_2 stale h =
      let (ph, h) = poll_handler os stale h in
      elim ph [
        | none ↦ (none, h)
        | some p ↦ let (p, h) = watch_for_read os en.fd p h in (some p, h)
      ]

  -- The inner loop of `workerThread2`. None: also where `nextEvent` reads behind its array.
  unfoldable pub handle_polled : ℕ → PollHandler → Dings → Option (PollHandler × Dings)
  handle_polled zero p s = none
  handle_polled (suc k) p s = elim (PollHandler.next_event os p s.calls) [
    | no_more ↦ some (p, s)
    | overrun ↦ none
    | handed e q h ↦ handle_polled k q (handle_event e (record s { calls = h }))
  ]

  -- A round of `workerThread2`.
  unfoldable pub worker_round_2 : ℕ → PollHandler → Dings → Option (PollHandler × Dings)
  worker_round_2 k p s = do
    let (p, h) = wait_for_events os (pos 100) p s.calls
    (p, s) ← handle_polled k p (record s { calls = h })
    some (p, signal s)

  -- The loop of `workerThread2`, with fuel for the rounds and for the events of each.
  unfoldable pub worker_loop_2 : (rounds k : ℕ) → PollHandler → Dings → Option Dings
  worker_loop_2 zero k p s = none
  worker_loop_2 (suc rounds) k p s =
      let rest = worker_round_2 k p s >>= (λ x. worker_loop_2 rounds k x.0 x.1) in
      if ltb s.dings 10 then rest else some s
