-- ===== src/TestProgram/Tests.antt =====
-- A client that connects and sends twice, and the theorems at it.
use mimic_generator.Common.{◌≡◌, ◌≢◌, refl, some, List, [], ◌∷◌, ◌++◌, map, arith}
use mimic_generator.Common.Int.{ℤ, pos, negsuc}
use mimic_generator.Common.Maps.{Text}
use mimic_generator.EventQueue.Spec.{push}
use mimic_generator.Os.{Os, Call, History}
use mimic_generator.FileWorker.Tests.{digits}
use mimic_generator.TestProgram
use mimic_generator.TestProgram.{read_from_socket, server_setup, handler_setup}
use mimic_generator.TestProgram.Options
use mimic_generator.TestProgram.Options.{
  Settings, no_settings, option, conn_file_name, events_file_name, parse, worker_files, take_option,
}
use mimic_generator.TestProgram.Options.Given.{Fixed, IsIpFile, worker_files-given}
use mimic_generator.TestProgram.Reading.{failed, is_done, read_from_socket-total}
use mimic_generator.TestProgram.Rounds.{round, server, round-Reach}
use mimic_generator.TestProgram.Threads.{State, Reach, start}
use mimic_generator.TestProgram.Threads.Accepted.{watched, accepted, watched-accepted}

-- `epoll_wait` answers one event, and the first two calls of `read` answer 10 and 3 bytes.
abbrev os : Os
os = record {
  result = λ h c. elim c [
    | Call.socket ↦ pos 3
    | Call.accept fd ↦ pos 7
    | Call.epoll_create ↦ pos 4
    | Call.epoll_wait fd t ↦ pos 1
    | Call.read fd n ↦ elim h [ [] ↦ pos 10 | _ ∷ h ↦ elim h [ [] ↦ pos 3 | _ ∷ _ ↦ negsuc 0 ] ]
    | _ ↦ pos 0
  ];
  errno = λ h c. pos 11;
  filled = λ h c. record { family = 0; addr = 0; port = 0 };
  polled = λ h c i. record { events = 1; fd = pos 3 };
}

read_from_socket-total_example :
    read_from_socket os 3 (pos 7) []
    ≡ some (
      pos 13,
      is_done os (pos 7) failed (Call.read (pos 7) 10 ∷ Call.read (pos 7) 10 ∷ []),
      Call.read (pos 7) 10 ∷ Call.read (pos 7) 10 ∷ Call.read (pos 7) 10 ∷ [],
    )
read_from_socket-total_example =
    read_from_socket-total os (pos 7) (10 ∷ 3 ∷ []) failed 3 []
      (omega arith, refl, (omega arith, refl, refl)) (omega arith) (omega arith)

-- What the set-up of one socket has called.
abbrev set_up :
    (sockets : List ℤ) × (h : History) × (server_setup os 1 0 [] ≡ some (pos 4, sockets, h))
unfolding server_setup TestProgram.listen_all TestProgram.listen_at
set_up = (_, _, refl)

abbrev first_state : State
first_state = record {
  eq = [];
  server = set_up.1;
  server_left = [];
  handler = Call.epoll_create ∷ [];
  handler_left = [];
}

starts : Reach os 1 0 (pos 4) (pos 4) first_state
unfolding handler_setup
starts = start set_up.0 set_up.1 (Call.epoll_create ∷ []) set_up.2 refl

one_round : (t : State) × (round os (pos 4) (pos 4) server first_state ≡ some t)
unfolding TestProgram.server_round TestProgram.accept_events TestProgram.accept_on push
one_round = (_, refl)

round-Reach_example : (one_round.0.server_left ≡ []) × Reach os 1 0 (pos 4) (pos 4) one_round.0
round-Reach_example =
    round-Reach os 1 0 (pos 4) (pos 4) server first_state one_round.0 refl starts one_round.1

watched-accepted_example :
    watched one_round.0.handler ++ map (λ e. e.sockfd) one_round.0.eq
    ≡ accepted os one_round.0.server
watched-accepted_example =
    watched-accepted os
      (round-Reach os 1 0 (pos 4) (pos 4) server first_state one_round.0 refl starts one_round.1).1

abbrev arguments : List Text
arguments = option b'i' ∷ (b'f' ∷ []) ∷ option b'c' ∷ (b'g' ∷ []) ∷ []

test_files : worker_files digits arguments ≡ some (b'f' ∷ [], conn_file_name, events_file_name ∷ [])
unfolding worker_files parse Options.turn take_option
test_files = refl

worker_files-given_example :
    IsIpFile (b'f' ∷ []) arguments
    × ◌≢◌ {A = Text} (b'f' ∷ []) []
    × (conn_file_name ≡ conn_file_name)
    × (events_file_name ∷ [] ≡ events_file_name ∷ [])
    × (o : Settings) × (parse digits 0 arguments no_settings ≡ some o)
    × Fixed no_settings o
worker_files-given_example =
    worker_files-given digits arguments (b'f' ∷ []) conn_file_name (events_file_name ∷ [])
      test_files
