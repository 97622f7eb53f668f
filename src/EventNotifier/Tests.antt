-- ===== src/EventNotifier/Tests.antt =====
-- A notifier over an eventfd that takes and gives eight bytes.
use mimic_generator.Common.{◌≡◌, refl, true, []}
use mimic_generator.Common.Int.{pos}
use mimic_generator.Os.{Os, Call}
use mimic_generator.EventNotifier.{EventNotifier, event_notifier, is_me, create_event_fd}

abbrev counter : Os
counter = record {
  result = λ h c. elim c [ Call.eventfd ↦ pos 4 | _ ↦ pos 8 ];
  errno = λ h c. pos 0;
  filled = λ h c. record { family = 0; addr = 0; port = 0 };
  polled = λ h c i. record { events = 0; fd = pos 0 };
}

abbrev notifier : EventNotifier
notifier = event_notifier (pos 4) []

test_create : (create_event_fd counter []).0 ≡ pos 4
unfolding create_event_fd
test_create = refl

test_me : is_me notifier (pos 4) ≡ true
unfolding is_me
test_me = refl
