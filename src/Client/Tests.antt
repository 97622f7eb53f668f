-- ===== src/Client/Tests.antt =====
-- A client of two threads with two sockets each, and rounds of one thread.
use mimic_generator.Common.{ℕ, zero, suc, ◌+◌, ◌≡◌, refl, [], ◌∷◌, some, length, List}
use mimic_generator.Common.Int.{ℤ, pos}
use mimic_generator.Os.{Os, Call, History}
use mimic_generator.Client.{
  Worker, new_worker, out_of_order, init_threads, init_sockets, init, create_connect,
  set_non_blocking, worker_round, worker_rounds, handle_event, handle_events, do_process, do_send,
  do_recv, check_job,
}
use mimic_generator.Client.Index.{worker_index, atoi, digits}
use mimic_generator.Client.Rounds.{worker_round-printed}
use mimic_generator.Client.Watches.{WatchesWrites, worker_rounds-WatchesWrites}
use mimic_generator.EventQueue.Spec.{push, pop}

-- Two events at each wait: one that a socket can be written, and one of an error.
abbrev os : Os
os = record {
  result = λ h c. elim c [
    | Call.socket ↦ pos (length h)
    | Call.epoll_wait efd timeout ↦ pos 2
    | _ ↦ pos 0
  ];
  errno = λ h c. pos 0;
  filled = λ h c. record { family = 0; addr = 0; port = 0 };
  polled = λ h c i. record { events = elim i [ zero ↦ 4 | suc j ↦ 8 ]; fd = pos (7 + i) };
}

abbrev efds : List ℤ
efds = pos 3 ∷ pos 4 ∷ []

-- Two rounds: the second starts anew with the numbers, so its first job counts as out of order.
test_rounds : (worker_rounds os (pos 3) 2 new_worker).printed ≡ out_of_order ∷ []
unfolding worker_rounds worker_round handle_events handle_event do_process do_send do_recv check_job
    push pop
test_rounds = refl

test_index : worker_index 49 (50 ∷ []) ≡ pos 1
unfolding worker_index atoi digits
test_index = refl

abbrev later_worker : Worker
later_worker = record new_worker { last_event_time = pos 1 }

worker_round-printed_example :
    ((worker_round os (pos 3) later_worker).eq ≡ [])
    × ((worker_round os (pos 3) later_worker).printed ≡ out_of_order ∷ [])
    × ((worker_round os (pos 3) later_worker).last_event_time ≡ pos 1)
worker_round-printed_example = worker_round-printed os (pos 3) later_worker refl

-- What the set-up has called.
abbrev set_up : (c' : ℕ) × (h' : History) × (init_threads os efds 2 9 0 [] ≡ some (c', h'))
unfolding init_threads init_sockets init create_connect set_non_blocking
set_up = (4, _, refl)

worker_rounds-WatchesWrites_example :
    WatchesWrites (worker_rounds os (pos 3) 2 (record new_worker { calls = set_up.1 })).calls
worker_rounds-WatchesWrites_example =
    worker_rounds-WatchesWrites os efds 2 9 0 set_up.0 set_up.1 set_up.2 (pos 3) 2
