-- ===== src/Client/Rounds.antt =====
-- src/basicClient.cpp, `so_thread_entry`: what a thread prints, round by round.
use mimic_generator.Common.{
  ℕ, zero, suc, ◌+◌, ◌-◌, ◌≡◌, refl, ap, ◌∙◌, ◌&&◌, [], ◌∷◌, arith, if◌then◌else◌, ◌==◌, ltb,
}
use mimic_generator.Common.Int.{ℤ, pos, negsuc, ltb_ℤ}
use mimic_generator.Event.{new_event}
use mimic_generator.EventQueue.Spec.{push, pop}
use mimic_generator.Os.{Os, Call, PollEvent}
use mimic_generator.Client.{
  out_of_order, Worker, do_send, do_recv, do_process, check_job, handle_event, handle_events,
  event_count, worker_round,
}

-- One event with the number `i` has been handled.
record Handled (i : ℕ) (w w' : Worker) : Type 0 where
  empty : w'.eq ≡ []
  last : w'.last_event_time ≡ pos i
  printed :
      w'.printed ≡ (if ltb_ℤ (pos i) w.last_event_time then out_of_order ∷ w.printed else w.printed)

-- The event leaves these fields alone while it is processed.
record Same (w w' : Worker) : Type 0 where
  eq : w'.eq ≡ w.eq
  last : w'.last_event_time ≡ w.last_event_time
  printed : w'.printed ≡ w.printed

module _ (os : Os) (efd : ℤ) where
  do_process-Same : (e : PollEvent) (w : Worker) → Same w (do_process os efd e w)
  unfolding do_process do_send do_recv
  do_process-Same e w = ground arith

  handle_event-Handled :
      (i : ℕ) (e : PollEvent) (w : Worker) → w.eq ≡ [] → Handled i w (handle_event os efd i e w)
  unfolding handle_event check_job push pop
  handle_event-Handled i e w empty =
      let w₁ = record w { eq = push w.eq (record new_event { ms_from_start = pos i }) } in
      let same = do_process-Same e w₁ in
      let queue : (do_process os efd e w₁).eq ≡ record new_event { ms_from_start = pos i } ∷ [] =
        same.eq ∙ ap (λ q. push q (record new_event { ms_from_start = pos i })) empty in
      ground (arith, queue, same.last, same.printed)

  -- Behind the first event of a round the numbers rise.
  handle_events-rising :
      (n i : ℕ) (events : ℕ → PollEvent) (w : Worker)
      → w.eq ≡ []
      → w.last_event_time ≡ pos i
      → ((handle_events os efd n (suc i) events w).eq ≡ [])
        × ((handle_events os efd n (suc i) events w).printed ≡ w.printed)
        × ((handle_events os efd n (suc i) events w).last_event_time ≡ pos (n + i))
  unfolding handle_events
  handle_events-rising zero i events w empty last = (empty, refl, ground (arith, last))
  handle_events-rising (suc n) i events w empty last =
      let w' = handle_event os efd (suc i) (events (suc i)) w in
      let d = handle_event-Handled (suc i) (events (suc i)) w empty in
      let (empty', printed, last') = handle_events-rising n (suc i) events w' d.empty d.last in
      (empty', ground (arith, printed, d.printed, last), ground (arith, last'))

  handle_events-printed :
      (n : ℕ) (events : ℕ → PollEvent) (w : Worker)
      → w.eq ≡ []
      → ((handle_events os efd n 0 events w).eq ≡ [])
        × ((handle_events os efd n 0 events w).printed ≡ (
            if ltb 0 n && ltb_ℤ (pos 0) w.last_event_time
            then out_of_order ∷ w.printed
            else w.printed))
        × ((handle_events os efd n 0 events w).last_event_time
            ≡ (if n == 0 then w.last_event_time else pos (n - 1)))
  unfolding handle_events
  handle_events-printed zero events w empty = (empty, refl, refl)
  handle_events-printed (suc n) events w empty =
      let w' = handle_event os efd 0 (events 0) w in
      let d = handle_event-Handled 0 (events 0) w empty in
      let (empty', printed, last) = handle_events-rising n 0 events w' d.empty d.last in
      (empty', ground (arith, printed, d.printed), ground (arith, last))

  -- A round that starts with an empty queue leaves it empty, and gets a job for every event. If epoll
  -- reports an event and the last job of the earlier rounds had a number above 0, it prints once that
  -- a job is out of order, and otherwise nothing. The number is that of the round's last event then,
  -- if there is one.
  pub worker_round-printed :
      (w : Worker)
      → w.eq ≡ []
      → ((worker_round os efd w).eq ≡ [])
        × ((worker_round os efd w).printed ≡ (
            if ltb 0 (event_count (os.result w.calls (Call.epoll_wait efd (negsuc 0))))
              && ltb_ℤ (pos 0) w.last_event_time
            then out_of_order ∷ w.printed
            else w.printed))
        × ((worker_round os efd w).last_event_time ≡ (
            if event_count (os.result w.calls (Call.epoll_wait efd (negsuc 0))) == 0
            then w.last_event_time
            else pos (event_count (os.result w.calls (Call.epoll_wait efd (negsuc 0))) - 1)))
  unfolding worker_round
  worker_round-printed w empty =
      let wait = Call.epoll_wait efd (negsuc 0) in
      handle_events-printed (event_count (os.result w.calls wait)) (os.polled w.calls wait)
        (record w { calls = wait ∷ w.calls }) empty
