-- ===== src/PerformanceTests.antt =====
-- src/performanceTests.cpp: the program that tests a file thread and an EventHandler; its options
-- and the loop that empties the file queue.
pub mod DummyFiles
pub mod Options
pub mod Peers
pub mod Pulling
mod Tests
use mimic_generator.Common.{
  ℕ, zero, suc, ◌+◌, ◌/◌, ◌%◌, Bool, true, false, not, ◌&&◌, ◌||◌, Option, none, some, List, [],
  ◌∷◌, ◌++◌, if◌then◌else◌, ◌==◌, ltb,
}
use mimic_generator.Common.Maps.{Text, text_eq}
use mimic_generator.Event.{Event}
use mimic_generator.EventHandler.Loop.{max_queued_file_events}
use mimic_generator.EventNotifier.{EventNotifier, send_signal}
use mimic_generator.Os.{Os, History}

pub data Role : Type 0 where
  server : Role
  client : Role

-- The flags and the variables of `main`; a role of none is one that is not set.
pub record Flags : Type 0 where
  pub test_all_flag : Bool
  pub test_file_events_flag : Bool
  pub test_connections_flag : Bool
  pub test_events_flag : Bool
  pub my_role : Option Role
  pub remote_host : Text

abbrev pub no_flags : Flags
no_flags = record {
  test_all_flag = true;
  test_file_events_flag = false;
  test_connections_flag = false;
  test_events_flag = false;
  my_role = none;
  remote_host = [];
}

-- The loop over the arguments ends, or the process exits, with its status.
pub data Parsed : Type 0 where
  parsed : Flags → Parsed
  exits : (status : ℕ) → Parsed

abbrev pub option : ℕ → Text
option c = b'-' ∷ c ∷ []

abbrev pub contains : ℕ → Text → Bool
contains c [] = false
contains c (d ∷ s) = if d == c then true else contains c s

-- `strstr` for "S" and "s".
abbrev pub role_of : Text → Role
role_of s = if contains b'S' s || contains b's' s then server else client

-- The options that take arguments but are not implemented.
abbrev pub is_ignored : Text → Bool
is_ignored arg = text_eq arg (option b'c') || text_eq arg (option b'e') || text_eq arg (option b's')

-- A turn of the loop over the arguments goes on, behind as many more arguments, or the process exits.
pub data Turn : Type 0 where
  goes : (skip : ℕ) → Flags → Turn
  stops : (status : ℕ) → Turn

-- The arguments of `-r`.
abbrev pub take_role : List Text → Flags → Turn
take_role [] o = stops 255
take_role (role ∷ []) o = stops 255
take_role (role ∷ host ∷ rest) o =
    goes 2 (record o { my_role = some (role_of role); remote_host = host })

-- The other options that take arguments are not implemented, and leave theirs to the next turn.
abbrev pub ignore : List Text → Flags → Turn
ignore [] o = stops 255
ignore (next ∷ rest) o = goes 0 o

-- A turn at `arg`, with the arguments `rest` behind it.
unfoldable pub turn : (arg : Text) (rest : List Text) → Flags → Turn
turn arg rest o =
    if text_eq arg (option b'F')
    then goes 0 (record o { test_all_flag = false; test_file_events_flag = true })
    else if text_eq arg (option b'C')
    then goes 0 (record o { test_all_flag = false; test_connections_flag = true })
    else if text_eq arg (option b'E')
    then goes 0 (record o { test_all_flag = false; test_events_flag = true })
    else if text_eq arg (option b'h')
    then stops 1
    else if text_eq arg (option b'r')
    then take_role rest o
    else if is_ignored arg
    then ignore rest o
    else goes 0 o

-- The loop, over the arguments from the second one of `argv` on.
unfoldable pub parse : (skip : ℕ) → List Text → Flags → Parsed
parse skip [] o = parsed o
parse (suc skip) (arg ∷ rest) o = parse skip rest o
parse zero (arg ∷ rest) o = elim (turn arg rest o) [
  | goes skip o ↦ parse skip rest o
  | stops status ↦ exits status
]

pub data Test : Type 0 where
  file_worker_test : Test
  event_handler_test : (remote_host : Text) → (my_role : Option Role) → Test

-- The tests that `main` runs after the arguments, in their order.
unfoldable pub tests : Flags → List Test
tests o =
    (if o.test_all_flag || o.test_file_events_flag then file_worker_test ∷ [] else [])
    ++ (if o.test_all_flag || o.test_connections_flag || o.test_file_events_flag
        then (if o.test_all_flag || o.test_connections_flag
            then event_handler_test o.remote_host o.my_role ∷ []
            else [])
          ++ (if o.test_all_flag || o.test_events_flag
              then event_handler_test o.remote_host o.my_role ∷ []
              else [])
        else [])

-- The variables of the loop of `fileWorkerTest`, and the calls made in it.
pub record Pull : Type 0 where
  pub num_events_pulled : ℕ
  pub last_event_count_when_requesting_for_more : ℕ
  pub calls : History

abbrev pub new_pull : History → Pull
new_pull calls = record {
  num_events_pulled = 0;
  last_event_count_when_requesting_for_more = 0;
  calls = calls;
}

module _ (os : Os) (load_more_notifier : EventNotifier) where
  -- The end of a turn.
  unfoldable pub request_more : Pull → Pull
  request_more s =
      if (s.num_events_pulled % (max_queued_file_events / 10) == 0)
        && not (s.last_event_count_when_requesting_for_more == s.num_events_pulled)
      then record s {
        last_event_count_when_requesting_for_more = s.num_events_pulled;
        calls = (send_signal os load_more_notifier s.calls).1;
      }
      else s

  -- A turn, by what `getEvent` finds.
  unfoldable pub pull_event : Option Event → Pull → Pull
  pull_event none s = request_more s
  pull_event (some job) s = request_more (record s { num_events_pulled = suc s.num_events_pulled })

  -- The loop, for what `getEvent` finds in its turns, one after another.
  unfoldable pub pull_events : (events_to_pull : ℕ) → List (Option Event) → Pull → Pull
  pull_events events_to_pull [] s = s
  pull_events events_to_pull (job ∷ jobs) s =
      if ltb s.num_events_pulled events_to_pull
      then pull_events events_to_pull jobs (pull_event job s)
      else s
