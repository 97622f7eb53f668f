-- ===== src/PerformanceTests/Pulling.antt =====
-- src/performanceTests.cpp, `fileWorkerTest`: how often the file thread is asked for more events.
use mimic_generator.Common.{
  ℕ, zero, suc, ◌+◌, ◌*◌, ◌/◌, ◌%◌, ◌≤◌, ◌≡◌, refl, sym, inl, inr, true, false, Option, none, some,
  List, [], ◌∷◌, arith, Bool-cases, ◌==◌, ==_iff, ◌≢◌, ltb,
}
use mathlib.Core.Path.{subst}
use mimic_generator.Event.{Event}
use mimic_generator.EventHandler.Quiet.{signals, send_signal-signals}
use mimic_generator.EventNotifier.{EventNotifier}
use mimic_generator.Os.{Os, History}
use mimic_generator.PerformanceTests.{Pull, new_pull, request_more, pull_event, pull_events}

-- The events in the answers of `getEvent`, up to `n`.
abbrev pub events_found : List (Option Event) → (n : ℕ) → ℕ
events_found [] n = 0
events_found (job ∷ jobs) zero = 0
events_found (none ∷ jobs) (suc n) = events_found jobs (suc n)
events_found (some e ∷ jobs) (suc n) = suc (events_found jobs n)

-- After `m` events: `c` signals were sent before the loop.
pub record Requested (c m : ℕ) (s : Pull) : Type 0 where
  pub last : s.last_event_count_when_requesting_for_more ≡ m / 100000 * 100000
  pub sent : signals s.calls ≡ c + m / 100000

module _ (os : Os) (n : EventNotifier) (c : ℕ) where
  request_more-Requested :
      (m : ℕ) (s : Pull)
      → m ≤ s.num_events_pulled
      → s.num_events_pulled ≤ suc m
      → Requested c m s
      → ((request_more os n s).num_events_pulled ≡ s.num_events_pulled)
        × Requested c s.num_events_pulled (request_more os n s)
  unfolding request_more
  request_more-Requested m s lo hi r =
      let num = s.num_events_pulled in
      let last = s.last_event_count_when_requesting_for_more in
      elim (Bool-cases (num % 100000 == 0)) [
        | inl whole ↦
            let at = (==_iff (num % 100000) 0).0 whole in
            elim (Bool-cases (last == num)) [
              | inl same ↦
                  let done = (==_iff last num).0 same in
                  rw (whole, same)
                    (refl, record { last = omega arith; sent = omega (arith, r.last, r.sent) })
              | inr other ↦
                  let new : last ≢ num = λ e. let e' = (==_iff last num).1 e in cc in
                  rw (whole, other)
                    (
                      refl,
                      record {
                        last = omega arith;
                        sent = omega (arith, r.last, r.sent, new, send_signal-signals os n s.calls);
                      },
                    )
            ]
        | inr part ↦
            let off : num % 100000 ≢ 0 = λ e. let e' = (==_iff (num % 100000) 0).1 e in cc in
            rw part (refl, record { last = omega (arith, r.last); sent = omega (arith, r.sent) })
      ]

  pull_event-Requested :
      (job : Option Event) (s : Pull)
      → Requested c s.num_events_pulled s
      → let t = pull_event os n job s in
        (t.num_events_pulled ≡ s.num_events_pulled + events_found (job ∷ []) 1)
        × Requested c t.num_events_pulled t
  unfolding pull_event
  pull_event-Requested none s r =
      let (num, t) = request_more-Requested s.num_events_pulled s (omega arith) (omega arith) r in
      (omega arith, subst (λ m. Requested c m (request_more os n s)) (sym num) t)
  pull_event-Requested (some e) s r =
      let s' = record s { num_events_pulled = suc s.num_events_pulled } in
      let (num, t) =
        request_more-Requested s.num_events_pulled s' (omega arith) (omega arith)
          (record { last = r.last; sent = r.sent }) in
      (omega arith, subst (λ m. Requested c m (request_more os n s')) (sym num) t)

  Pulled : (to : ℕ) → List (Option Event) → ℕ → Pull → Type 0
  Pulled to jobs k s =
      let t = pull_events os n to jobs s in
      (t.num_events_pulled ≡ s.num_events_pulled + events_found jobs k)
      × Requested c t.num_events_pulled t

  loop :
      (to k : ℕ) (jobs : List (Option Event)) (s : Pull)
      → s.num_events_pulled + k ≡ to
      → Requested c s.num_events_pulled s
      → Pulled to jobs k s
  unfolding Pulled pull_events
  loop to k [] s left r = (omega arith, r)
  loop to zero (job ∷ jobs) s left r =
      let over : ltb s.num_events_pulled to ≡ false = ground arith in rw over (omega arith, r)
  loop to (suc k) (none ∷ jobs) s left r =
      let more : ltb s.num_events_pulled to ≡ true = ground arith in
      let (num, r') = pull_event-Requested none s r in
      let (all, end) = loop to (suc k) jobs (pull_event os n none s) (omega arith) r' in
      rw more (omega arith, end)
  loop to (suc k) (some e ∷ jobs) s left r =
      let more : ltb s.num_events_pulled to ≡ true = ground arith in
      let (num, r') = pull_event-Requested (some e) s r in
      let (all, end) = loop to k jobs (pull_event os n (some e) s) (omega arith) r' in
      rw more (omega arith, end)

module _ (os : Os) (n : EventNotifier) where
  -- Whatever `getEvent` finds in the turns of the loop: the loop has pulled as many events as it has
  -- found, up to its number, and has signalled the file thread once for each multiple of 100000 that
  -- the count has reached.
  pub pull_events-signals :
      (events_to_pull : ℕ) (jobs : List (Option Event)) (calls : History)
      → let s = pull_events os n events_to_pull jobs (new_pull calls) in
        (s.num_events_pulled ≡ events_found jobs events_to_pull)
        × (signals s.calls ≡ signals calls + events_found jobs events_to_pull / 100000)
  unfolding Pulled
  pull_events-signals events_to_pull jobs calls =
      let (num, r) =
        loop os n (signals calls) events_to_pull events_to_pull jobs (new_pull calls) (omega arith)
          (record { last = refl; sent = omega arith }) in
      (omega (arith, num), omega (arith, num, r.sent))
