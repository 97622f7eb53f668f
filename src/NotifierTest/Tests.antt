-- ===== src/NotifierTest/Tests.antt =====
-- A thread that epoll tells of one signal in every round, and the theorems at it.
use mimic_generator.Common.{◌≡◌, refl, [], ◌∷◌, arith}
use mimic_generator.Common.Int.{pos}
use mimic_generator.EventNotifier.{EventNotifier, event_notifier}
use mimic_generator.Os.{Os, History}
use mimic_generator.PollHandler.{PollHandler}
use mimic_generator.NotifierTest.{Dings, worker_loop, worker_loop_2}
use mimic_generator.NotifierTest.Versions.{Answers, worker_loop-same}

abbrev os : Os
os = record {
  result = λ h c. pos 1;
  errno = λ h c. pos 0;
  filled = λ h c. record { family = 0; addr = 0; port = 0 };
  polled = λ h c i. record { events = 1; fd = pos 4 };
}

abbrev notifier : EventNotifier
notifier = event_notifier (pos 4) []

abbrev no_dings : Dings
no_dings = record { dings = 0; calls = [] }

abbrev polls : PollHandler
polls = record {
  fds_to_watch_for_read = pos 4 ∷ [];
  epollfd = pos 1;
  events = λ i. record { events = 0; fd = pos 0 };
  event_index = 0;
  current_event_count = pos 0;
}

answers : (h : History) → Answers os (pos 1) h
answers h = record { count = 1; answered = refl; fits = omega arith; only_in = λ i. refl }

worker_loop-same_example :
    worker_loop_2 os notifier 11 21 polls no_dings ≡ worker_loop os notifier 11 (pos 1) no_dings
worker_loop-same_example = worker_loop-same os notifier 11 21 polls no_dings (omega arith) answers
