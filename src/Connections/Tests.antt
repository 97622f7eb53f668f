-- ===== src/Connections/Tests.antt =====
-- The theorems about connections at it.
use mimic_generator.Common.{◌≡◌, refl, some, [], ◌∷◌}
use mimic_generator.Common.Int.{pos, negsuc}
use mimic_generator.Os.{SockAddr, Call, Os}
use mimic_generator.Connections.{ConnectionPair, connection_pair, get_conn_string}
use mimic_generator.Connections.Decimal.{decimal}
use mimic_generator.Connections.Dotted.{dotted_inet}
use mimic_generator.Connections.Sockets.{get_ipv4_tcp_sock}

-- 127.0.0.1:8000 and 10.0.2.2:80.
abbrev a_client : SockAddr
a_client = record { family = 2; addr = 16777343; port = 16415 }

abbrev a_server : SockAddr
a_server = record { family = 2; addr = 33685514; port = 20480 }

abbrev a_pair : ConnectionPair
a_pair = record { src = a_client; dst = a_server }

test_string : (get_conn_string dotted_inet a_client a_server).0 ≡ (
    b'1' ∷ b'2' ∷ b'7' ∷ b'.' ∷ b'0' ∷ b'.' ∷ b'0' ∷ b'.' ∷ b'1' ∷ b':' ∷ b'8' ∷ b'0' ∷ b'0' ∷ b'0'
    ∷ b',' ∷ b'1' ∷ b'0' ∷ b'.' ∷ b'0' ∷ b'.' ∷ b'2' ∷ b'.' ∷ b'2' ∷ b':' ∷ b'8' ∷ b'0' ∷ [])
unfolding get_conn_string decimal
test_string = refl

test_pair :
    connection_pair dotted_inet 0 0
      (b'1' ∷ b'2' ∷ b'7' ∷ b'.' ∷ b'0' ∷ b'.' ∷ b'0' ∷ b'.' ∷ b'1' ∷ [])
      (pos 8000)
      (b'1' ∷ b'2' ∷ b'7' ∷ b'.' ∷ b'0' ∷ b'.' ∷ b'0' ∷ b'.' ∷ b'1' ∷ [])
      (pos 65616)
    ≡ record { src = a_client; dst = record a_client { port = 20480 } }
unfolding connection_pair decimal
test_pair = refl

-- Descriptor 3 for the socket, and no address that can be bound.
abbrev no_bind : Os
no_bind = record {
  result = λ h c. elim c [ Call.socket ↦ pos 3 | Call.bind fd a ↦ negsuc 0 | _ ↦ pos 0 ];
  errno = λ h c. pos 98;
  filled = λ h c. a_client;
  polled = λ h c i. record { events = 0; fd = pos 0 };
}

test_bind_failed : (get_ipv4_tcp_sock no_bind (some a_client) []).0 ≡ negsuc 0
unfolding get_ipv4_tcp_sock
test_bind_failed = refl
