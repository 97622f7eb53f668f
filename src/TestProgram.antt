-- ===== src/TestProgram.antt =====
-- src/test.cpp: the thread that accepts clients, the thread that reads from them, and the options. The
-- system calls are those of Os.
pub mod Options
pub mod Reading
pub mod Rounds
pub mod Threads
mod Tests
use mimic_generator.Common.{
  ℕ, zero, suc, ◌+◌, Bool, true, false, not, ◌&&◌, ◌||◌, Option, none, some, List, [], ◌∷◌,
  if◌then◌else◌, ◌==◌, ◌>>=◌,
}
use Prim.Native.Nat.{bit_and}
use mimic_generator.Common.Int.{ℤ, pos, negsuc, ◌==ℤ◌, ◌+ℤ◌, ltb_ℤ, to_int}
use mimic_generator.Event.{Event, new_event}
use mimic_generator.EventQueue.Spec.{Fifo, push, pop}
use mimic_generator.Os.{SockAddr, Os, Call, History, PollEvent, perform, or_nonblock}
use mimic_generator.Connections.{af_inet, swap16, to_u16}

abbrev pub start_port : ℕ
start_port = 5000

-- EPOLLIN | EPOLLPRI | EPOLLERR | EPOLLHUP
abbrev pub watch_in : ℕ
watch_in = 1 + 2 + 8 + 16

-- EPOLLERR is 8 and EPOLLHUP is 16.
abbrev pub has_error : PollEvent → Bool
has_error e = not (bit_and e.events 8 == 0) || not (bit_and e.events 16 == 0)

module _ (os : Os) where
  -- One socket of `serverSocketsThread`; `ip` is what inet_pton makes of the server's address. None,
  -- here and below: the process exits.
  unfoldable pub listen_at : (efd : ℤ) (ip port : ℕ) → History → Option (ℤ × History)
  listen_at efd ip port h =
      let address : SockAddr = record {
        family = af_inet;
        addr = ip;
        port = swap16 (to_u16 (pos port));
      } in
      let (sockfd, h) = perform os Call.socket h in
      let (opts, h) = perform os (Call.fcntl_getfl sockfd) h in
      let (status, h) = perform os (Call.fcntl_setfl sockfd (or_nonblock opts)) h in
      if status ==ℤ negsuc 0
      then none
      else (let (bound, h) = perform os (Call.bind sockfd address) h in
          if ltb_ℤ bound (pos 0)
          then none
          else (let (listens, h) = perform os (Call.listen sockfd (pos 3)) h in
              if listens ==ℤ negsuc 0
              then none
              else (let (stat, h) = perform os (Call.epoll_add efd sockfd watch_in) h in
                  if stat ==ℤ pos 0 then some (sockfd, h) else none)))

  -- The loop over the sockets, with `n` of them left, from the one with the number `i` on.
  unfoldable pub listen_all : (n i : ℕ) → (efd : ℤ) (ip : ℕ) → History → Option (List ℤ × History)
  listen_all zero i efd ip h = some ([], h)
  listen_all (suc n) i efd ip h = do
    (sockfd, h) ← listen_at efd ip (start_port + i) h
    (sockets, h) ← listen_all n (suc i) efd ip h
    some (sockfd ∷ sockets, h)

  -- `serverSocketsThread` up to its loop: the epoll instance and the sockets.
  unfoldable pub server_setup : (num_conns ip : ℕ) → History → Option (ℤ × List ℤ × History)
  server_setup num_conns ip h =
      let (efd, h) = perform os Call.epoll_create h in
      if efd ==ℤ negsuc 0
      then none
      else (do (sockets, h) ← listen_all num_conns 0 efd ip h; some (efd, sockets, h))

  -- One event of a listening socket.
  unfoldable pub accept_on : PollEvent → Fifo → History → Fifo × History
  accept_on e q h =
      if has_error e
      then (q, h)
      else (let (sockfd, h) = perform os (Call.accept e.fd) h in
          let (opts, h) = perform os (Call.fcntl_getfl sockfd) h in
          let (status, h) = perform os (Call.fcntl_setfl sockfd (or_nonblock opts)) h in
          if not (sockfd ==ℤ negsuc 0) && not (status ==ℤ negsuc 0)
          then (push q (record new_event { sockfd = sockfd; ms_from_start = pos 0 }), h)
          else (q, h))

  -- The loop over the events, with `n` of them left.
  unfoldable pub accept_events :
      (n i : ℕ) → (events : ℕ → PollEvent) → Fifo → History → Fifo × History
  accept_events zero i events q h = (q, h)
  accept_events (suc n) i events q h =
      let (q, h) = accept_on (events i) q h in accept_events n (suc i) events q h

  -- A round of the loop of `serverSocketsThread`.
  unfoldable pub server_round : (efd : ℤ) → Fifo → History → Option (Fifo × History)
  server_round efd q h =
      let wait = Call.epoll_wait efd (pos 5000) in
      elim (os.result h wait) [
        | pos n ↦ some (accept_events n 0 (os.polled h wait) q (wait ∷ h))
        | negsuc n ↦ none
      ]

  -- The sockets are closed after the loop.
  unfoldable pub close_sockets : List ℤ → History → History
  close_sockets [] h = h
  close_sockets (sockfd ∷ sockets) h = close_sockets sockets (perform os (Call.close sockfd) h).1

  -- The loop of `readFromSocket`, with what it has counted: the count and `*done`. EAGAIN is 11. None:
  -- the fuel has run out.
  unfoldable pub read_from : ℕ → (sockfd count : ℤ) → History → Option (ℤ × Bool × History)
  read_from zero sockfd count h = none
  read_from (suc k) sockfd count h =
      let read = Call.read sockfd 10 in
      let (c, h') = perform os read h in
      let rest = read_from k sockfd (to_int (count +ℤ to_int c)) h' in
      if to_int c ==ℤ negsuc 0
      then some (count, not (os.errno h read ==ℤ pos 11), h')
      else if to_int c ==ℤ pos 0
      then some (count, true, h')
      else rest

  unfoldable pub read_from_socket : ℕ → (sockfd : ℤ) → History → Option (ℤ × Bool × History)
  read_from_socket k sockfd h = read_from k sockfd (pos 0) h

  -- `writeToSocket`, which no function calls: the count of the bytes, and `*done`.
  unfoldable pub write_to_socket : (sockfd : ℤ) (count : ℕ) → History → ℤ × Bool × History
  write_to_socket sockfd count h =
      let (sent, h) = perform os (Call.send sockfd count) h in (to_int sent, false, h)

  -- `connectionHandlerThread` up to its loop.
  unfoldable pub handler_setup : History → Option (ℤ × History)
  handler_setup h =
      let (efd, h) = perform os Call.epoll_create h in
      if efd ==ℤ negsuc 0 then none else some (efd, h)

  -- The socket of a job is watched, whatever `epoll_ctl` answers.
  unfoldable pub watch_job : (efd : ℤ) → Event → History → History
  watch_job efd job h = (perform os (Call.epoll_add efd job.sockfd watch_in) h).1

  -- The loop that takes the jobs.
  unfoldable pub watch_jobs : ℕ → (efd : ℤ) → Fifo → History → Option (Fifo × History)
  watch_jobs zero efd q h = none
  watch_jobs (suc k) efd q h =
      let (q, job) = pop q in
      elim job [ none ↦ some (q, h) | some job ↦ watch_jobs k efd q (watch_job efd job h) ]

  -- One event of a client's socket; the count that is read is not used. An event without EPOLLIN is an
  -- error, so nothing is left for EPOLLOUT.
  unfoldable pub handle_socket : ℕ → PollEvent → History → Option History
  handle_socket k e h =
      if has_error e || bit_and e.events 1 == 0
      then some h
      else (do (count, done, h) ← read_from_socket k e.fd h; some h)

  unfoldable pub handle_sockets :
      ℕ → (n i : ℕ) → (events : ℕ → PollEvent) → History → Option History
  handle_sockets k zero i events h = some h
  handle_sockets k (suc n) i events h = do
    h ← handle_socket k (events i) h
    handle_sockets k n (suc i) events h

  -- A round of the loop of `connectionHandlerThread`.
  unfoldable pub handler_round : ℕ → (efd : ℤ) → Fifo → History → Option (Fifo × History)
  handler_round k efd q h = do
    (q, h) ← watch_jobs k efd q h
    let wait = Call.epoll_wait efd (pos 0)
    elim (os.result h wait) [
      | pos n ↦ do h' ← handle_sockets k n 0 (os.polled h wait) (wait ∷ h); some (q, h')
      | negsuc n ↦ none
    ]
