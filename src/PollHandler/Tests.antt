-- ===== src/PollHandler/Tests.antt =====
-- A PollHandler over an epoll that reports events.
use mimic_generator.Common.{◌+◌, ◌≡◌, refl, [], ◌∷◌, arith}
use mimic_generator.Common.Int.{ℤ, pos, negsuc}
use mimic_generator.Os.{Os, Call, entries}
use mimic_generator.PollHandler.{PollHandler, wait_for_events}
use mimic_generator.PollHandler.Polling.{drain, all_read, wait_for_events-drain}

abbrev answers : ℤ → Os
answers n = record {
  result = λ h c. elim c [ Call.epoll_wait epfd timeout ↦ n | _ ↦ pos 0 ];
  errno = λ h c. pos 0;
  filled = λ h c. record { family = 0; addr = 0; port = 0 };
  polled = λ h c i. record { events = 5; fd = pos (10 + i) };
}

abbrev poller : PollHandler
poller = record {
  fds_to_watch_for_read = pos 10 ∷ [];
  epollfd = pos 3;
  events = λ i. record { events = 0; fd = pos i };
  event_index = 7;
  current_event_count = pos 0;
}

-- The count that `epoll_wait` answers.
test_count : (wait_for_events (answers (pos 2)) (negsuc 0) poller []).0.current_event_count ≡ pos 2
unfolding wait_for_events
test_count = refl

wait_for_events-drain_example :
    drain
      (answers (pos 2))
      3
      (wait_for_events (answers (pos 2)) (pos 0) poller []).0
      (wait_for_events (answers (pos 2)) (pos 0) poller []).1
    ≡ (entries (λ i. record { events = 5; fd = pos (10 + i) }) 0 2, all_read)
wait_for_events-drain_example =
    wait_for_events-drain (answers (pos 2)) 2 3 (pos 0) poller [] refl (omega arith) (omega arith)
