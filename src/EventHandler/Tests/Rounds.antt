-- ===== src/EventHandler/Tests/Rounds.antt =====
-- Rounds of an EventHandler, the earlier version of one, and the theorems at them.
use mimic_generator.Common.{
  ◌≡◌, refl, inl, inr, ◌⊎◌, false, if◌then◌else◌, some, true, [], ◌∷◌, arith,
}
use mimic_generator.Common.Int.{ℤ, pos, negsuc, ◌==ℤ◌}
use mimic_generator.Common.Maps.{find, insert, int_eq, text_eq_instance}
use mimic_generator.EventQueue.Spec
use mimic_generator.Common.Int
use mimic_generator.EventHandler
use mimic_generator.EventHandler.Dispatch
use mimic_generator.Connections.Sockets
use mimic_generator.EventHandler.Posix.{IsPosix}
use mimic_generator.EventHandler.Wired.{IsWired, loop_round-IsWired}
use mimic_generator.EventHandler.Loop
use mimic_generator.EventQueue.Spec.{next_time}
use mimic_generator.Os.{Call, Os, History, is_open}
use mimic_generator.Connections.Dotted.{dotted_inet}
use mimic_generator.EventHandler.{new_handler, startup}
use mimic_generator.EventHandler.Dispatch.{check_deferred}
use mimic_generator.EventHandler.Loop.{file_events, loop_round}
use mimic_generator.EventHandler.Progress.{Progress, loop_round-Progress}
use mimic_generator.EventHeap.{next_event}
use mimic_generator.PollHandler.{PollHandler, fill}
use mimic_generator.PollHandler
use mimic_generator.EventHandler.Tests.{mild, H, started, connects}
use mimic_generator.EventHandler.Earlier
use mimic_generator.EventHandler.Earlier.{IsAccepted, file_events-same, dispatch-accept_ready}

-- A handler with nothing to do, after half of the queue has been handled.
abbrev pub at_half : H
unfolding started
at_half = record started {
  incoming_file_events = [];
  file_events_handled_count = 500001;
  last_event_count_when_requesting_for_more = 500000;
}

at_half-Progress : Progress at_half
unfolding at_half
at_half-Progress = record { recent = λ le. refl; early = λ lt sent. absurd (omega arith) }

abbrev pub no_polls : PollHandler
no_polls = record {
  fds_to_watch_for_read = [];
  epollfd = pos 4;
  events = λ i. record { events = 0; fd = pos 0 };
  event_index = 0;
  current_event_count = pos 0;
}

-- `epoll_wait` answers 0, and fills nothing in.
abbrev pub after_wait : PollHandler
after_wait = record no_polls {
  events = fill (pos 0) (λ i. record { events = 1; fd = pos 3 }) no_polls.events;
}

-- The round resets the count, and waits once for epoll.
abbrev pub woken : H
woken = record at_half {
  file_events_handled_count = 0;
  load_more = true;
  calls = Call.epoll_wait (pos 4) (pos 0) ∷ [];
}

pub test_round :
    loop_round mild dotted_inet 2 (negsuc 0) (pos 10) (pos 11) no_polls at_half
    ≡ some (negsuc 0, after_wait, woken)
unfolding at_half loop_round file_events Loop.wake_file_worker check_deferred next_event
    Loop.poll_round Loop.poll_connections next_time PollHandler.next_event
    PollHandler.wait_for_events Spec.pop started startup new_handler Int.◌-ℤ◌
test_round = refl

loop_round-Progress_example : Progress woken
loop_round-Progress_example =
    loop_round-Progress mild dotted_inet 2 (negsuc 0) (pos 10) (pos 11) no_polls at_half (negsuc 0)
      after_wait woken test_round at_half-Progress

file_events-same_example :
    Earlier.file_events mild 4 (next_time started.incoming_file_events) (pos 10) started
    ≡ file_events mild 4 (next_time started.incoming_file_events) (pos 10) started
unfolding started startup new_handler
file_events-same_example =
    file_events-same mild 4 (pos 10) started ((λ e. cc), ((λ e. cc), ((λ e. cc), tt))) (omega arith)

-- `socket` and `accept` answer 5 as the first call, and fail later.
abbrev posix : Os
posix = record {
  result = λ h c. elim c [
    | Call.socket ↦ elim h [ [] ↦ pos 5 | _ ∷ _ ↦ negsuc 0 ]
    | Call.accept fd ↦ elim h [ [] ↦ pos 5 | _ ∷ _ ↦ negsuc 0 ]
    | Call.connect fd a ↦ if fd ==ℤ negsuc 0 then negsuc 0 else pos 0
    | Call.fcntl_setfl fd flags ↦ if fd ==ℤ negsuc 0 then negsuc 0 else pos 0
    | _ ↦ pos 0
  ];
  errno = λ h c. pos 0;
  filled = mild.filled;
  polled = mild.polled;
}

posix-new :
    (h : History) (c : Call)
    → posix.result h c ≡ elim h [ [] ↦ pos 5 | _ ∷ _ ↦ negsuc 0 ]
    → (posix.result h c ≡ negsuc 0) ⊎ (is_open posix (posix.result h c) h ≡ false)
posix-new [] c at = inr refl
posix-new (_ ∷ h) c at = inl at

posix-IsPosix : IsPosix posix
posix-IsPosix = record {
  socket_new = λ h. posix-new h Call.socket refl;
  accept_new = λ h fd. posix-new h (Call.accept fd) refl;
  connect_bad = λ h a. refl;
  setfl_bad = λ h flags. refl;
}

-- A CONNECT in the file queue.
abbrev connecting : H
unfolding started
connecting = record started { incoming_file_events = connects ∷ [] }

connecting-IsWired : IsWired posix connecting
unfolding connecting started startup new_handler find
connecting-IsWired = record { linked = λ c fd e. absurd (cc); live = λ c fd e. absurd (cc) }

wired_round :
    (r : ℤ × PollHandler × H) × (loop_round posix dotted_inet 2
        (pos 1)
        (pos 10)
        (pos 11)
        no_polls
        connecting
      ≡ some r)
    × (find (pos 7) r.2.conn_to_sockfd_id_map ≡ some (pos 5))
unfolding connecting loop_round file_events Loop.wake_file_worker check_deferred next_event
    Loop.poll_round Loop.poll_connections next_time PollHandler.next_event
    PollHandler.wait_for_events Spec.pop started startup new_handler Int.◌-ℤ◌ Dispatch.dispatch
    Dispatch.dispatch_as Dispatch.connect_to find Loop.count_file_event Dispatch.connect_answer
    EventHandler.new_connection_update insert Sockets.get_ipv4_tcp_sock
    Sockets.set_ipv4_tcp_non_blocking
wired_round = (_, refl, refl)

loop_round-IsWired_example : IsWired posix wired_round.0.2
loop_round-IsWired_example =
    loop_round-IsWired posix posix-IsPosix dotted_inet 2 (pos 1) (pos 10) (pos 11) no_polls
      connecting wired_round.0.0 wired_round.0.1 wired_round.0.2 wired_round.1 connecting-IsWired
