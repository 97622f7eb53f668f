-- ===== src/PerformanceTests/Tests.antt =====
-- Arguments of the program, and turns of its loop.
use mimic_generator.Common.{ℕ, ◌>>=◌, ◌≡◌, refl, List, [], ◌∷◌, Option, none, some, true, false}
use mimic_generator.Common.Int.{ℤ, pos, negsuc}
use mimic_generator.Event.{Event, new_event}
use mimic_generator.Os.{Os}
use mimic_generator.PerformanceTests.{
  Flags, no_flags, parsed, exits, client, option, turn, parse, event_handler_test, tests,
}
use mimic_generator.FileWorker.{load_file}
use mimic_generator.PerformanceTests.DummyFiles.{
  conn_row, conn_file, rows_from, load_file-conn_file,
}
use mimic_generator.Common.Maps.{Map, find, insert, int_eq}
use mimic_generator.Connections.{ConnectionPair, connection_pair}
use mimic_generator.Connections.Dotted.{dotted_inet}
use mimic_generator.PerformanceTests.Peers.{make_up, made_up_map}
use mimic_generator.PerformanceTests.Options.{looked_at, has, selected, parse-tests}

-- `-E` and a role.
abbrev full_test : List (List ℕ)
full_test = option b'E' ∷ option b'r' ∷ (b'c' ∷ []) ∷ (b'1' ∷ []) ∷ []

abbrev full_flags : Flags
full_flags = record {
  test_all_flag = false;
  test_file_events_flag = false;
  test_connections_flag = false;
  test_events_flag = true;
  my_role = some client;
  remote_host = b'1' ∷ [];
}

full_test-parsed : parse 0 full_test no_flags ≡ parsed full_flags
unfolding parse turn
full_test-parsed = refl

test_exit : parse 0 (option b'r' ∷ (b'c' ∷ []) ∷ []) no_flags ≡ exits 255
unfolding parse turn
test_exit = refl

-- For `-E -r c 1` no test is run.
parse-tests_example :
    let options = looked_at 0 full_test in
    tests full_flags
    ≡ selected
        (has b'F' options)
        (has b'C' options)
        (has b'E' options)
        (event_handler_test (b'1' ∷ []) (some client))
parse-tests_example = parse-tests full_test full_flags full_test-parsed

abbrev os : Os
os = record {
  result = λ h c. pos 8;
  errno = λ h c. pos 0;
  filled = λ h c. record { family = 0; addr = 0; port = 0 };
  polled = λ h c i. record { events = 0; fd = pos 0 };
}

abbrev answers : List (Option Event)
answers = some new_event ∷ none ∷ some new_event ∷ some new_event ∷ []

-- All times are written as 0.
load_file-conn_file_example :
    load_file (conn_file (λ i. b'0' ∷ [])) 8 (negsuc 0)
    ≡ some (rows_from (λ i. conn_row (b'0' ∷ []) i) 500 0, [])
load_file-conn_file_example = load_file-conn_file (λ i. b'0' ∷ []) (λ i. (refl, tt))

abbrev names : Map ℤ ConnectionPair
names = made_up_map dotted_inet 0 0 (λ i. i) client []

-- The source of connection 2 has port 5002, in network byte order.
test_made_up : (find (pos 2) names >>= (λ p. some p.src.port)) ≡ some 35347
unfolding make_up find insert connection_pair
test_made_up = refl
