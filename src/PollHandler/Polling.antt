-- ===== src/PollHandler/Polling.antt =====
-- src/pollHandler.cpp: the events that repeated calls of `nextEvent` hand out.
use mimic_generator.Common.{
  ℕ, zero, suc, not, ◌+◌, ◌≤◌, ◌<◌, ◌≡◌, refl, ap, ◌∙◌, inl, inr, true, false, List, [], ◌∷◌, arith,
  ltb, Bool-cases, if◌then◌else◌,
}
use mathlib.Core.Path.{ap₂}
use mimic_generator.Common.Int.{ℤ, pos, negsuc, ◌==ℤ◌, ◌-ℤ◌}
use mimic_generator.Os.{Os, Call, History, PollEvent, entries}
use mimic_generator.PollHandler.{
  max_epoll_events, PollHandler, is_in, fill, erase_fd, has_out, rearm, watch_for_read,
  stop_watching, wait_for_events, Next, no_more, overrun, handed, next_event,
}

-- How repeated calls of `nextEvent` end: the function returned false, it read behind the array, or
-- the fuel has run out.
pub data End : Type 0 where
  all_read read_behind no_fuel : End

abbrev pub then_take : PollEvent → List PollEvent × End → List PollEvent × End
then_take e (es, end) = (e ∷ es, end)

pub pos-pred : (n : ℕ) → pos (suc n) -ℤ pos 1 ≡ pos n
unfolding ◌-ℤ◌
pos-pred n = ground arith

negsuc-pred : (m : ℕ) → negsuc m -ℤ pos 1 ≡ negsuc (suc m)
unfolding ◌-ℤ◌
negsuc-pred m = ground arith

entries-filled :
    (count i n : ℕ) (new old : ℕ → PollEvent)
    → i + n ≤ count
    → entries (λ j. if ltb j count then new j else old j) i n ≡ entries new i n
entries-filled count i zero new old le = refl
entries-filled count i (suc n) new old le =
    let inside : ltb i count ≡ true = ground arith in
    rw inside (ap (◌∷◌ (new i)) (entries-filled count (suc i) n new old (omega arith)))

module _ (os : Os) where
  unfoldable pub drain : ℕ → PollHandler → History → List PollEvent × End
  drain zero p h = ([], no_fuel)
  drain (suc k) p h = elim (next_event os p h) [
    | no_more ↦ ([], all_read)
    | overrun ↦ ([], read_behind)
    | handed e q h' ↦ then_take e (drain k q h')
  ]

  -- What `rearm` leaves alone.
  Same : PollHandler → PollHandler → Type 0
  Same p q =
      (q.events ≡ p.events)
      × (q.event_index ≡ p.event_index)
      × (q.current_event_count ≡ p.current_event_count)

  rearm-Same : (e : PollEvent) (p : PollHandler) (h : History) → Same p (rearm os e p h).0
  unfolding Same watch_for_read
  rearm-Same e p h = elim (Bool-cases (has_out e)) [
    | inl out ↦ elim (Bool-cases (is_in e.fd p.fds_to_watch_for_read)) [
      | inl watched ↦ rw (out, watched) (refl, refl, refl)
      | inr unwatched ↦ rw (out, unwatched) (refl, refl, refl)
    ]
    | inr only_in ↦ rw only_in (refl, refl, refl)
  ]

  -- An event that is left is handed out.
  Takes : PollHandler → History → Type 0
  Takes p h =
      (q : PollHandler) × (h' : History) × (next_event os p h
        ≡ handed (p.events p.event_index) q h')
      × (q.events ≡ p.events)
      × (q.event_index ≡ suc p.event_index)
      × (q.current_event_count ≡ p.current_event_count -ℤ pos 1)

  next_event-Takes :
      (p : PollHandler) (h : History)
      → (p.current_event_count ==ℤ pos 0) ≡ false
      → p.event_index < max_epoll_events
      → Takes p h
  unfolding Takes Same next_event
  next_event-Takes p h more lt =
      let e = p.events p.event_index in
      let (q, h') = rearm os e p h in
      let (events, index, count) = rearm-Same e p h in
      let inside : ltb p.event_index max_epoll_events ≡ true = ground arith in
      (
        record q {
          event_index = suc q.event_index;
          current_event_count = q.current_event_count -ℤ pos 1;
        },
        h',
        rw (more, inside) refl,
        events,
        ap suc index,
        ap (λ c. c -ℤ pos 1) count,
      )

  next_event-overrun :
      (p : PollHandler) (h : History)
      → (p.current_event_count ==ℤ pos 0) ≡ false
      → p.event_index ≡ max_epoll_events
      → next_event os p h ≡ overrun
  unfolding next_event
  next_event-overrun p h more at =
      let outside : ltb p.event_index max_epoll_events ≡ false = ground arith in
      rw (more, outside) refl

  pub next_event-no_more :
      (p : PollHandler) (h : History) → p.current_event_count ≡ pos 0 → next_event os p h ≡ no_more
  unfolding next_event
  next_event-no_more p h count = rw count refl

  abbrev from_next : ℕ → Next → List PollEvent × End
  from_next k no_more = ([], all_read)
  from_next k overrun = ([], read_behind)
  from_next k (handed e q h) = then_take e (drain k q h)

  drain-next :
      (k : ℕ) (p : PollHandler) (h : History) (n : Next)
      → next_event os p h ≡ n
      → drain (suc k) p h ≡ from_next k n
  unfolding drain
  drain-next k p h n e = ap (from_next k) e

  drain_count :
      (n k : ℕ) (p : PollHandler) (h : History)
      → p.current_event_count ≡ pos n
      → p.event_index + n ≤ max_epoll_events
      → n < k
      → drain k p h ≡ (entries p.events p.event_index n, all_read)
  unfolding Takes
  drain_count n zero p h count le lt = absurd (omega arith)
  drain_count zero (suc k) p h count le lt = drain-next k p h no_more (next_event-no_more p h count)
  drain_count (suc n) (suc k) p h count le lt =
      let (q, h', e, events, index, count') = next_event-Takes p h (ground arith) (omega arith) in
      let rest =
        drain_count n k q h' (count' ∙ ap (λ c. c -ℤ pos 1) count ∙ pos-pred n)
          (omega (arith, index)) (omega arith) in
      drain-next k p h (handed (p.events p.event_index) q h') e
      ∙ ap (then_take (p.events p.event_index))
          (rest ∙ ap₂ (λ ev i. (entries ev i n, all_read)) events index)

  drain_error :
      (j m : ℕ) (p : PollHandler) (h : History)
      → p.current_event_count ≡ negsuc m
      → p.event_index + j ≡ max_epoll_events
      → drain (suc j) p h ≡ (entries p.events p.event_index j, read_behind)
  unfolding Takes
  drain_error zero m p h count at =
      drain-next 0 p h overrun (next_event-overrun p h (ground arith) (omega arith))
  drain_error (suc j) m p h count at =
      let (q, h', e, events, index, count') = next_event-Takes p h (ground arith) (omega arith) in
      let rest =
        drain_error j (suc m) q h' (count' ∙ ap (λ c. c -ℤ pos 1) count ∙ negsuc-pred m)
          (omega (arith, index)) in
      drain-next (suc j) p h (handed (p.events p.event_index) q h') e
      ∙ ap (then_take (p.events p.event_index))
          (rest ∙ ap₂ (λ ev i. (entries ev i j, read_behind)) events index)

  -- If `epoll_wait` answers a count that fits the array, repeated calls of `nextEvent` hand out
  -- exactly the events that it filled in, in their order, and then return false.
  pub wait_for_events-drain :
      (n k : ℕ) (timeout : ℤ) (p : PollHandler) (h : History)
      → os.result h (Call.epoll_wait p.epollfd timeout) ≡ pos n
      → n ≤ max_epoll_events
      → n < k
      → drain k (wait_for_events os timeout p h).0 (wait_for_events os timeout p h).1
        ≡ (entries (os.polled h (Call.epoll_wait p.epollfd timeout)) 0 n, all_read)
  unfolding wait_for_events
  wait_for_events-drain n k timeout p h at le lt =
      let (q, h') = wait_for_events os timeout p h in
      let new = os.polled h (Call.epoll_wait p.epollfd timeout) in
      drain_count n k q h' at (omega arith) lt
      ∙ ap (λ es. (es, all_read))
          (ap (λ c. entries (fill c new p.events) 0 n) at
            ∙ entries-filled n 0 n new p.events (omega arith))

  -- If `epoll_wait` fails, `nextEvent` hands out every entry of the array and then reads behind it.
  pub wait_for_events-overrun :
      (timeout : ℤ) (p : PollHandler) (h : History)
      → os.result h (Call.epoll_wait p.epollfd timeout) ≡ negsuc 0
      → drain
          (suc max_epoll_events)
          (wait_for_events os timeout p h).0
          (wait_for_events os timeout p h).1
        ≡ (entries p.events 0 max_epoll_events, read_behind)
  unfolding wait_for_events
  wait_for_events-overrun timeout p h at =
      let (q, h') = wait_for_events os timeout p h in
      drain_error max_epoll_events 0 q h' at refl
      ∙ ap
          (λ c. (
            entries (fill c (os.polled h (Call.epoll_wait p.epollfd timeout)) p.events) 0
                max_epoll_events,
            read_behind,
          ))
          at

  is_in-erase_fd : (fd : ℤ) (ds : List ℤ) → is_in fd (erase_fd fd ds) ≡ false
  is_in-erase_fd fd [] = refl
  is_in-erase_fd fd (d ∷ ds) = elim (Bool-cases (d ==ℤ fd)) [
    | inl same ↦ rw same (is_in-erase_fd fd ds)
    | inr other ↦ rw (other, other) (is_in-erase_fd fd ds)
  ]

  -- `stopWatching` of a descriptor that is watched for reads takes it out of the set exactly if
  -- `epoll_ctl` fails.
  pub stop_watching-is_in :
      (fd : ℤ) (p : PollHandler) (h : History)
      → is_in fd p.fds_to_watch_for_read ≡ true
      → is_in fd (stop_watching os fd p h).0.fds_to_watch_for_read
        ≡ not (os.result h (Call.epoll_del p.epollfd fd) ==ℤ negsuc 0)
  unfolding stop_watching
  stop_watching-is_in fd p h watched =
      elim (Bool-cases (os.result h (Call.epoll_del p.epollfd fd) ==ℤ negsuc 0)) [
        | inl failed ↦ rw failed (is_in-erase_fd fd p.fds_to_watch_for_read)
        | inr done ↦ rw done watched
      ]
