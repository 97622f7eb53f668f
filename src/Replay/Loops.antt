-- ===== src/Replay/Loops.antt =====
-- src/eventHandler.cpp and src/fileWorker.cpp: a round of either loop is a run of steps.
use mathlib.Core.Path.{subst}
use mathlib.Core.Option.{some-injective}
use mimic_generator.Common.{
  ℕ, zero, suc, ◌≡◌, refl, Bool, true, false, Option, none, some, List, if◌then◌else◌, bind-some,
}
use mimic_generator.Common.Int.{ℤ, pos, ◌≤ℤ◌, ltb_ℤ}
use mimic_generator.Event.{Event}
use mimic_generator.EventHeap.{compare_events}
use mimic_generator.EventHeap.Contract.{JobHeap}
use mimic_generator.EventQueue.Spec.{Fifo, pop, next_time}
use mimic_generator.Os.{Os}
use mimic_generator.Connections.{Inet}
use mimic_generator.EventHandler.{Handler}
use mimic_generator.EventHandler.Dispatch.{dispatch, check_deferred}
use mimic_generator.EventHandler.Loop.{
  count_file_event, file_events, wake_file_worker, poll_connections, poll_round, loop_round,
}
use mimic_generator.EventHandler.FileEvents.{is_due}
use mimic_generator.FileWorker.Events.{Numbers}
use mimic_generator.PollHandler.{PollHandler, wait_for_events}
use mimic_generator.Replay.{
  tests, checks, rereads, waits, polls, State, handle_event, timeout, Step, handles, fails, looks,
  ends, defers, looks_again, sleeps, accepts, Run, here, further,
}

module _ (os : Os) (inet : Inet) (numbers : Numbers) (to_get : ℕ) {J : JobHeap compare_events} where
  pub Run-trans :
      {s t u : State J}
      → Run os inet numbers to_get s t
      → Run os inet numbers to_get t u
      → Run os inet numbers to_get s u
  Run-trans r here = r
  Run-trans r (further q st) = further (Run-trans r q) st

  one : {s t : State J} → Step os inet numbers to_get s t → Run os inet numbers to_get s t
  one st = further here st

  stays :
      (s : State J) → s.place ≡ tests → Run os inet numbers to_get s (record s { place = tests })
  stays s at = subst (λ p. Run os inet numbers to_get s (record s { place = p })) at here

  -- The handler's inner loop, from a test on, ends at `next'` with the handler `h'`.
  Turns : (s : State J) (next' : ℤ) (h' : Handler J) → Type 0
  Turns s next' h' =
      (log : List (Event × ℤ)) × Run os inet numbers to_get s
        (record s { handler = h'; next_event_time = next'; place = tests; got = log })
      × (is_due s.now next' ≡ false)

  file_events-Run :
      (k : ℕ) (s : State J) (next' : ℤ) (h' : Handler J)
      → s.place ≡ tests
      → file_events os k s.next_event_time s.now s.handler ≡ some (next', h')
      → Turns s next' h'
  unfolding file_events Turns
  file_events-Run zero s next' h' at e = absurd (cc)
  file_events-Run (suc k) s next' h' at e =
      by_job (is_due s.now s.next_event_time) (pop s.handler.incoming_file_events) refl refl
        (λ t. file_events-Run k t next' h') e
    where
      by_job :
          (due : Bool) (r : Fifo × Option Event)
          → is_due s.now s.next_event_time ≡ due
          → pop s.handler.incoming_file_events ≡ r
          → ((t : State J)
              → t.place ≡ tests
              → file_events os k t.next_event_time t.now t.handler ≡ some (next', h')
              → Turns t next' h')
          → (let rest : Option (ℤ × Handler J) = elim r.1 [
            | some e ↦
                let g =
                  dispatch os e s.now
                    (count_file_event os (record s.handler { incoming_file_events = r.0 })) in
                file_events os k (next_time g.incoming_file_events) s.now g
            | none ↦ file_events os k s.next_event_time s.now s.handler
          ] in
              if due then rest else some (s.next_event_time, s.handler))
            ≡ some (next', h')
          → Turns s next' h'
      by_job false r is got ih e =
          let same : (s.next_event_time, s.handler) ≡ (next', h') = some-injective _ _ e in
          subst (λ (x : ℤ × Handler J). Turns s x.0 x.1) same (s.got, stays s at, is)
      by_job true (q, none) is got ih e =
          let (log, run, end) = ih s at e in
          (log, Run-trans (one (fails q at is got refl)) run, end)
      by_job true (q, some job) is got ih e =
          let t₁ = handle_event os q job s in
          let t₂ = record t₁ {
            next_event_time = next_time t₁.handler.incoming_file_events;
            place = tests;
          } in
          let (log, run, end) = ih t₂ refl e in
          (log, Run-trans (further (one (handles q job at is got refl)) (looks refl refl)) run, end)

  -- A round of the handler's loop that starts at a test and returns, with the clock read as `later` in
  -- it, which is not before `now`, is a run of steps that changes nothing of the file thread, and ends
  -- at a test.
  pub loop_round-Run :
      (k : ℕ) (later : ℤ) (s : State J) (next' : ℤ) (p' : PollHandler) (h' : Handler J)
      → s.place ≡ tests
      → s.now ≤ℤ later
      → loop_round os inet k s.next_event_time s.now later s.poll_handler s.handler
        ≡ some (next', p', h')
      → (log : List (Event × ℤ)) × Run os inet numbers to_get s (record s {
        handler = h';
        poll_handler = p';
        next_event_time = next';
        now = later;
        place = tests;
        got = log;
      })
  unfolding loop_round poll_round Turns
  loop_round-Run k later s next' p' h' at le e =
      let ((t, h₁), at₁, e₁) =
        bind-some (file_events os k s.next_event_time s.now s.handler) _ (next', p', h') e in
      let (log, run, early) = file_events-Run k s t h₁ at at₁ in
      let s₁ = record s { handler = h₁; next_event_time = t; place = tests; got = log } in
      let h₂ = wake_file_worker h₁ in
      let s₂ = record s₁ { handler = h₂; place = checks } in
      let (h₃, at₂, e₂) = bind-some (check_deferred os k later h₂) _ (next', p', h') e₁ in
      let s₃ = record s₂ { handler = h₃; now = later; place = rereads } in
      let t' = if ltb_ℤ t (pos 0) then next_time h₃.incoming_file_events else t in
      let s₄ = record s₃ { next_event_time = t'; place = waits } in
      let (q, calls) = wait_for_events os (timeout t' later) s.poll_handler h₃.calls in
      let h₄ = record h₃ { calls = calls } in
      let s₅ = record s₄ { poll_handler = q; handler = h₄; place = polls } in
      let ((p₂, h₅), at₃, e₃) =
        bind-some (poll_connections os inet k later q h₄) _ (next', p', h') e₂ in
      let s₆ = record s₅ { poll_handler = p₂; handler = h₅; place = tests } in
      let to_end : Run os inet numbers to_get s s₆ =
        further
          (further
            (further
              (further (further run (ends refl early refl)) (defers k later h₃ refl le at₂ refl))
              (looks_again refl refl))
            (sleeps refl refl))
          (accepts k p₂ h₅ refl at₃ refl) in
      (
        log,
        subst
            (λ (x : ℤ × PollHandler × Handler J). Run os inet numbers to_get s (record s {
              handler = x.2;
              poll_handler = x.1;
              next_event_time = x.0;
              now = later;
              place = tests;
              got = log;
            }))
            (some-injective _ _ e₃) to_end,
      )
