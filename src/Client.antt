-- ===== src/Client.antt =====
-- src/basicClient.cpp: a client that opens many connections, shared among threads, and sends a
-- message wherever epoll reports that it can. The system calls are those of Os.
pub mod Watches
pub mod Index
pub mod Rounds
pub mod Setup
mod Tests
use mimic_generator.Common.{
  ℕ, zero, suc, ◌+◌, ◌*◌, ◌/◌, ◌%◌, ◌^◌, Bool, true, false, Option, none, some, List, [], ◌∷◌,
  if◌then◌else◌, ◌==◌, ltb, ◌>>=◌,
}
use Prim.Native.Nat.{bit_and}
use mimic_generator.Common.Int.{ℤ, pos, negsuc, ◌==ℤ◌, ltb_ℤ}
use mimic_generator.Event.{Event, new_event}
use mimic_generator.EventQueue.Spec.{Fifo, push, pop}
use mimic_generator.Os.{Os, Call, History, PollEvent, perform, or_nonblock}
use mimic_generator.Connections.{af_inet, swap16}

abbrev pub threading_count : ℕ
threading_count = 4

abbrev pub no_connection : ℕ
no_connection = 1000

abbrev pub start_port : ℕ
start_port = 5454

-- EPOLLOUT | EPOLLET
abbrev pub watch_out : ℕ
watch_out = 4 + 2147483648

-- The array `ports` of 1024 numbers that `main` fills. None: behind the array.
abbrev pub ports : ℕ → Option ℕ
ports i = if ltb i 1024 then some (start_port + i) else none

module _ (os : Os) where
  -- The descriptor is set to non-blocking, whatever the first call answers.
  unfoldable pub set_non_blocking : (sock : ℤ) → History → History
  set_non_blocking sock h =
      let (opts, h) = perform os (Call.fcntl_getfl sock) h in
      (perform os (Call.fcntl_setfl sock (or_nonblock opts)) h).1

  -- `ip` is what inet_pton makes of the server's address. None: the process exits.
  unfoldable pub create_connect : (ip port : ℕ) → History → Option (ℤ × History)
  create_connect ip port h =
      let (sockfd, h) = perform os Call.socket h in
      let (status, h) =
        perform os
          (Call.connect sockfd (record { family = af_inet; addr = ip; port = swap16 port })) h in
      if status ==ℤ negsuc 0 then none else some (sockfd, h)

  -- `init`, for the epoll instance `efd` of a thread.
  unfoldable pub init : (ip port : ℕ) (efd : ℤ) → History → Option History
  init ip port efd h = do
    (sofd, h) ← create_connect ip port h
    some (perform os (Call.epoll_add efd sofd watch_out) (set_non_blocking sofd h)).1

  -- The loop over the sockets of one thread, with `n` of them left, from the port `curport` on.
  unfoldable pub init_sockets :
      (n : ℕ) → (ip : ℕ) (efd : ℤ) (curport : ℕ) → History → Option (ℕ × History)
  init_sockets zero ip efd curport h = some (curport, h)
  init_sockets (suc n) ip efd curport h = do
    port ← ports curport
    h ← init ip port efd h
    init_sockets n ip efd (suc curport) h

  -- The loop over the threads, by their epoll instances.
  unfoldable pub init_threads :
      (efds : List ℤ) → (per_thread ip curport : ℕ) → History → Option (ℕ × History)
  init_threads [] per_thread ip curport h = some (curport, h)
  init_threads (efd ∷ efds) per_thread ip curport h = do
    (curport, h) ← init_sockets per_thread ip efd curport h
    init_threads efds per_thread ip curport h

-- What `so_thread_entry` prints of a job.
pub data Message : Type 0 where
  out_of_order : Message
  no_job : Message

-- The variables of a thread. `printed` has the messages, and `calls` the system calls, the latest
-- first. The array `count`, which all threads write and which is only printed, is left out.
pub record Worker : Type 0 where
  pub eq : Fifo
  pub last_event_time : ℤ
  pub printed : List Message
  pub calls : History

abbrev pub new_worker : Worker
new_worker = record { eq = []; last_event_time = negsuc 0; printed = []; calls = [] }

module _ (os : Os) (efd : ℤ) where
  -- The message has 100 bytes. The count of the messages is left out, as at Worker.
  unfoldable pub do_send : ℤ → Worker → Worker
  do_send fd w =
      let (_, h) = perform os (Call.send fd 100) w.calls in
      record w { calls = (perform os (Call.epoll_mod efd fd watch_out) h).1 }

  unfoldable pub do_recv : ℤ → Worker → Worker
  do_recv fd w =
      let (_, h) = perform os (Call.read fd 512) w.calls in
      record w { calls = (perform os (Call.epoll_mod efd fd watch_out) h).1 }

  -- EPOLLIN is 1 and EPOLLOUT is 4.
  unfoldable pub do_process : PollEvent → Worker → Worker
  do_process e w =
      if bit_and e.events 5 == 0
      then record w { calls = (perform os (Call.close e.fd) w.calls).1 }
      else if bit_and e.events 1 == 0
      then (if bit_and e.events 4 == 0 then w else do_send e.fd w)
      else do_recv e.fd w

-- What `getEvent` reports after the event is processed.
unfoldable pub check_job : Fifo × Option Event → Worker → Worker
check_job (q, none) w = record w { eq = q; printed = no_job ∷ w.printed }
check_job (q, some job) w = record w {
  eq = q;
  last_event_time = job.ms_from_start;
  printed =
      if ltb_ℤ job.ms_from_start w.last_event_time then out_of_order ∷ w.printed else w.printed;
}

-- No event is handled where `epoll_wait` answers a negative number.
abbrev pub event_count : ℤ → ℕ
event_count (pos n) = n
event_count (negsuc n) = 0

module _ (os : Os) (efd : ℤ) where
  -- The body of the loop over the events, for that with the number `i`.
  unfoldable pub handle_event : (i : ℕ) → PollEvent → Worker → Worker
  handle_event i e w =
      let w = record w { eq = push w.eq (record new_event { ms_from_start = pos i }) } in
      let w = do_process os efd e w in check_job (pop w.eq) w

  -- The loop, with `n` events left.
  unfoldable pub handle_events : (n i : ℕ) → (events : ℕ → PollEvent) → Worker → Worker
  handle_events zero i events w = w
  handle_events (suc n) i events w = handle_events n (suc i) events (handle_event i (events i) w)

  -- A round of the loop of `so_thread_entry`.
  unfoldable pub worker_round : Worker → Worker
  worker_round w =
      let wait = Call.epoll_wait efd (negsuc 0) in
      let (n, h) = perform os wait w.calls in
      handle_events (event_count n) 0 (os.polled w.calls wait) (record w { calls = h })

  -- As many rounds; `stop` stays 0 once a thread runs.
  unfoldable pub worker_rounds : ℕ → Worker → Worker
  worker_rounds zero w = w
  worker_rounds (suc k) w = worker_rounds k (worker_round w)
