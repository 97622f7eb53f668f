-- ===== src/EventHandler/Progress.antt =====
-- src/eventHandler.cpp, `loop`: how often the file thread is told that events have been handled.
use mimic_generator.Common.{
  ℕ, suc, ◌+◌, ◌*◌, ◌/◌, ◌%◌, ◌≤◌, ◌<◌, ◌≡◌, inl, inr, false, some, arith, Bool-cases, ◌==◌, ==_iff,
  ◌≢◌, ltb,
}
use mimic_generator.Common.Int.{ℤ}
use mimic_generator.Common.Maps.{int_eq, text_eq_instance}
use mimic_generator.Event.{Event}
use mimic_generator.EventHeap.{compare_events}
use mimic_generator.EventHeap.Contract.{JobHeap}
use mimic_generator.Os.{Os}
use mimic_generator.Connections.{Inet}
use mimic_generator.EventHandler.{Handler}
use mimic_generator.EventHandler.Dispatch.{dispatch}
use mimic_generator.EventHandler.Loop.{count_file_event, wake_file_worker, loop_round}
use mimic_generator.PollHandler.{PollHandler, wait_for_events}
use mimic_generator.EventHandler.Rounds.{Keeps, loop_round-keeps}
use mimic_generator.EventHandler.Quiet.{
  signals, Quiet, send_signal-signals, dispatch_as-Quiet, accept_new_connection-Quiet,
}

module _ {J : JobHeap compare_events} where
  -- The count at the last request is the last multiple of 100000 that the count has passed. Where the
  -- count is below 100000, that at the last request is 0, or 500000 at least: the count has been set to
  -- 0 since.
  pub record Progress (h : Handler J) : Type 0 where
    pub recent :
        100000 ≤ h.file_events_handled_count
        → h.last_event_count_when_requesting_for_more
          ≡ h.file_events_handled_count / 100000 * 100000
    pub early :
        h.file_events_handled_count < 100000
        → 0 < h.last_event_count_when_requesting_for_more
        → 500000 ≤ h.last_event_count_when_requesting_for_more

  Progress-Quiet : (h h' : Handler J) → Quiet h h' → Progress h → Progress h'
  Progress-Quiet h h' q p = record {
    recent = λ le. omega (arith, q.count, q.last, p.recent (omega (arith, q.count)));
    early = λ lt some_sent.
        omega (arith, q.last, p.early (omega (arith, q.count)) (omega (arith, q.last)));
  }

  wake_file_worker-Progress : (h : Handler J) → Progress h → Progress (wake_file_worker h)
  unfolding wake_file_worker
  wake_file_worker-Progress h p = elim (Bool-cases (ltb 500000 h.file_events_handled_count)) [
    | inl many ↦
        let passed : 500000 < h.file_events_handled_count = ground arith in
        rw many (record {
          recent = λ le. absurd (omega arith);
          early = λ lt some_sent. omega (arith, p.recent (omega arith));
        })
    | inr few ↦ rw few p
  ]

module _ (os : Os) {J : JobHeap compare_events} where
  -- `n` events have been counted, and each multiple of 100000 passed on the way was signalled.
  pub record Advances (n : ℕ) (h h' : Handler J) : Type 0 where
    pub count : h'.file_events_handled_count ≡ h.file_events_handled_count + n
    pub sent :
        signals h'.calls + h.file_events_handled_count / 100000
        ≡ signals h.calls + h'.file_events_handled_count / 100000
    pub progress : Progress h'

  count_file_event-Advances : (h : Handler J) → Progress h → Advances 1 h (count_file_event os h)
  unfolding count_file_event
  count_file_event-Advances h p =
      let c = h.file_events_handled_count in
      let l = h.last_event_count_when_requesting_for_more in
      elim (Bool-cases (suc c % 100000 == 0)) [
        | inl tells ↦
            let at : suc c % 100000 ≡ 0 = (==_iff (suc c % 100000) 0).0 tells in
            let new : (l == suc c) ≡ false = ground (arith, p.early, p.recent) in
            let sent = send_signal-signals os h.request_more_file_events h.calls in
            rw (tells, new)
              (record {
                count = omega arith;
                sent = omega (arith, sent);
                progress = record { recent = λ le. omega arith; early = λ lt. omega arith };
              })
        | inr quiet ↦
            let at : suc c % 100000 ≢ 0 = λ e. cc ((==_iff (suc c % 100000) 0).1 e) in
            rw quiet (record {
              count = omega arith;
              sent = omega arith;
              progress = record {
                recent = λ le. ground (arith, p.recent);
                early = λ lt. ground (arith, p.early);
              };
            })
      ]

module _ (os : Os) (inet : Inet) {J : JobHeap compare_events} where
  Progress-Keeps : Keeps os inet (Progress {J = J})
  unfolding dispatch wait_for_events
  Progress-Keeps = record {
    queue = λ h q p. record { recent = p.recent; early = p.early };
    heap = λ h w p. record { recent = p.recent; early = p.early };
    counts = λ h p. let a = count_file_event-Advances os h p in a.progress;
    wakes = λ h. wake_file_worker-Progress h;
    dispatches = λ job now h. Progress-Quiet h _ (dispatch_as-Quiet os job.type job now h);
    waits = λ timeout p h held. record { recent = held.recent; early = held.early };
    hands = λ p q e calls h at held. record { recent = held.recent; early = held.early };
    accepts = λ fd now h. Progress-Quiet h _ (accept_new_connection-Quiet os inet fd now h);
  }

  -- A round of the loop keeps it that the count at the last request to the file thread is the last
  -- multiple of 100000 that the count of the events has passed, if that is 100000 at least; and, where
  -- the count is below 100000, that the count at the last request is 0, or 500000 at least.
  pub loop_round-Progress :
      (k : ℕ) (next now later : ℤ) (p : PollHandler) (h : Handler J) (next' : ℤ) (p' : PollHandler)
      → (h' : Handler J) → loop_round os inet k next now later p h ≡ some (next', p', h')
      → Progress h
      → Progress h'
  loop_round-Progress k next now later p h next' p' h' =
      loop_round-keeps os inet Progress-Keeps k next now later p h next' p' h'
