-- ===== src/EventQueue/Tests/Sockets.antt =====
-- `getSocket` at a socket that cannot be set to non-blocking.
use mimic_generator.Common.{◌≡◌, refl, []}
use mimic_generator.Common.Int.{pos, negsuc}
use mimic_generator.Event.{tcp, ipv4}
use mimic_generator.Os.{Os, Call}
use mimic_generator.EventQueue.Sockets.{get_socket, set_non_blocking}

-- `socket` answers 5, and every `fcntl` -1.
abbrev stubborn : Os
stubborn = record {
  result = λ h c. elim c [ Call.socket ↦ pos 5 | _ ↦ negsuc 0 ];
  errno = λ h c. pos 0;
  filled = λ h c. record { family = 0; addr = 0; port = 0 };
  polled = λ h c i. record { events = 0; fd = pos 0 };
}

test_get_socket : (get_socket stubborn ipv4 tcp []).0 ≡ negsuc 0
unfolding get_socket set_non_blocking
test_get_socket = refl
