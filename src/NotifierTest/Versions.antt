-- ===== src/NotifierTest/Versions.antt =====
-- src/eventTest.cpp: the two versions of the thread do the same.
use mimic_generator.Common.{
  ℕ, zero, suc, ◌+◌, ◌≤◌, ◌<◌, ◌≡◌, refl, ap, ◌∙◌, true, false, Option, none, some, ◌∷◌, arith,
  if◌then◌else◌, ltb, ◌>>=◌,
}
use mimic_generator.Common.Int.{ℤ, pos, ◌==ℤ◌}
use mimic_generator.EventNotifier.{EventNotifier}
use mimic_generator.Os.{Os, Call, History, PollEvent}
use mimic_generator.PollHandler.{
  PollHandler, max_epoll_events, has_out, fill, wait_for_events, Next, no_more, overrun, handed,
}
use mimic_generator.PollHandler
use mimic_generator.PollHandler.Polling.{pos-pred, next_event-no_more}
use mimic_generator.NotifierTest.{
  Dings, handle_event, signal, handle_events, worker_round, worker_loop, handle_polled,
  worker_round_2, worker_loop_2,
}

-- What epoll_wait answers: a count that fits the array, of events without EPOLLOUT, which no thread
-- asks for.
pub record Answers (os : Os) (epollfd : ℤ) (h : History) : Type 0 where
  pub count : ℕ
  pub answered : os.result h (Call.epoll_wait epollfd (pos 100)) ≡ pos count
  pub fits : count ≤ max_epoll_events
  pub only_in : (i : ℕ) → has_out (os.polled h (Call.epoll_wait epollfd (pos 100)) i) ≡ false

module _ (os : Os) (en : EventNotifier) where
  handle_events-ap :
      (n j : ℕ) (new old : ℕ → PollEvent) (c : ℕ) (s : Dings)
      → j + n ≤ c
      → handle_events os en n j (λ i. if ltb i c then new i else old i) s
        ≡ handle_events os en n j new s
  unfolding handle_events
  handle_events-ap zero j new old c s le = refl
  handle_events-ap (suc n) j new old c s le =
      let inside : ltb j c ≡ true = ground arith in
      rw inside (handle_events-ap n (suc j) new old c (handle_event os en (new j) s) (omega arith))

  next_event-handed :
      (n : ℕ) (p : PollHandler) (h : History)
      → p.current_event_count ≡ pos (suc n)
      → p.event_index < max_epoll_events
      → has_out (p.events p.event_index) ≡ false
      → PollHandler.next_event os p h
        ≡ handed
            (p.events p.event_index)
            (record p { event_index = suc p.event_index; current_event_count = pos n })
            h
  unfolding PollHandler.next_event
  next_event-handed n p h count lt out =
      let inside : ltb p.event_index max_epoll_events ≡ true = ground arith in
      let some_left : (pos (suc n) ==ℤ pos 0) ≡ false = ground arith in
      rw (count, some_left, inside, out, pos-pred n) refl

  -- What follows a call of `nextEvent`.
  abbrev after_next : ℕ → PollHandler → Dings → Next → Option (PollHandler × Dings)
  after_next k p s no_more = some (p, s)
  after_next k p s overrun = none
  after_next k p s (handed e q h) =
      handle_polled os en k q (handle_event os en e (record s { calls = h }))

  handle_polled-next :
      (k : ℕ) (p : PollHandler) (s : Dings) (r : Next)
      → PollHandler.next_event os p s.calls ≡ r
      → handle_polled os en (suc k) p s ≡ after_next k p s r
  unfolding handle_polled
  handle_polled-next k p s r e = ap (after_next k p s) e

  abbrev Handles : ℕ → ℕ → PollHandler → Dings → Type 0
  Handles k n p s =
      (q : PollHandler) × (handle_polled os en k p s
        ≡ some (q, handle_events os en n p.event_index p.events s))
      × (q.epollfd ≡ p.epollfd)

  handle_polled-Handles :
      (n k : ℕ) (p : PollHandler) (s : Dings)
      → p.current_event_count ≡ pos n
      → p.event_index + n ≤ max_epoll_events
      → ((i : ℕ) → i < p.event_index + n → has_out (p.events i) ≡ false)
      → n < k
      → Handles k n p s
  unfolding handle_polled handle_events
  handle_polled-Handles n zero p s count fits out enough = absurd (omega arith)
  handle_polled-Handles zero (suc k) p s count fits out enough =
      (p, handle_polled-next k p s no_more (next_event-no_more os p s.calls count), refl)
  handle_polled-Handles (suc n) (suc k) p s count fits out enough =
      let e = p.events p.event_index in
      let q = record p { event_index = suc p.event_index; current_event_count = pos n } in
      let got =
        next_event-handed n p s.calls count (omega arith) (out p.event_index (omega arith)) in
      let (r, at, fd) =
        handle_polled-Handles n k q (handle_event os en e s) refl (omega arith)
          (λ i lt. out i (omega arith)) (omega arith) in
      (r, handle_polled-next k p s (handed e q s.calls) got ∙ at, fd)

  -- The round of the second version is that of the first one.
  worker_round-same :
      (k : ℕ) (p : PollHandler) (s : Dings)
      → max_epoll_events < k
      → Answers os p.epollfd s.calls
      → (q : PollHandler) × (worker_round_2 os en k p s ≡ some (q, worker_round os en p.epollfd s))
        × (q.epollfd ≡ p.epollfd)
  unfolding worker_round worker_round_2 wait_for_events
  worker_round-same k p s enough a =
      let wait = Call.epoll_wait p.epollfd (pos 100) in
      let new = os.polled s.calls wait in
      let events = fill (pos a.count) new p.events in
      let t = record s { calls = wait ∷ s.calls } in
      let p' = record p { events = events; event_index = 0; current_event_count = pos a.count } in
      let out : (i : ℕ) → i < 0 + a.count → has_out (events i) ≡ false =
        λ i lt. let inside : ltb i a.count ≡ true = ground arith in rw inside (a.only_in i) in
      let (q, at, same) =
        handle_polled-Handles a.count k p' t refl (let le = a.fits in omega arith) out
          (let le = a.fits in omega arith) in
      let handled = handle_events-ap a.count 0 new p.events a.count t (omega arith) in
      (
        q,
        rw a.answered (
            ap (λ (r : Option (PollHandler × Dings)). r >>= (λ x. some (x.0, signal os en x.1))) at
            ∙ ap (λ u. some (q, signal os en u)) handled),
        same,
      )

  -- If epoll_wait always answers a count from 0 to the size of the array of a PollHandler, and reports
  -- no EPOLLOUT, then the loops of the two versions do the same: with fuel for the events of a round,
  -- they count the same signals and make the same system calls.
  pub worker_loop-same :
      (rounds k : ℕ) (p : PollHandler) (s : Dings)
      → max_epoll_events < k
      → ((h : History) → Answers os p.epollfd h)
      → worker_loop_2 os en rounds k p s ≡ worker_loop os en rounds p.epollfd s
  unfolding worker_loop worker_loop_2
  worker_loop-same zero k p s enough answers = refl
  worker_loop-same (suc rounds) k p s enough answers =
      let (q, at, same) = worker_round-same k p s enough (answers s.calls) in
      let s' = worker_round os en p.epollfd s in
      let rest : worker_loop_2 os en rounds k q s' ≡ worker_loop os en rounds p.epollfd s' =
        worker_loop-same rounds k q s' enough (λ h. rw same (answers h))
        ∙ ap (λ d. worker_loop os en rounds d s') same in
      rw at (ap (λ r. if ltb s.dings 10 then r else some s) rest)
