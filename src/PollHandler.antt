-- ===== src/PollHandler.antt =====
-- src/pollHandler.cpp and include/pollHandler.h: the events that epoll reports, handed out one by
-- one.
pub mod Polling
mod Tests
use mimic_generator.Common.{
  ℕ, zero, suc, ◌+◌, ◌/◌, ◌%◌, Bool, true, false, Option, none, some, List, [], ◌∷◌, if◌then◌else◌,
  ltb, ◌==◌,
}
use mimic_generator.Common.Int.{ℤ, pos, negsuc, ◌==ℤ◌, ◌-ℤ◌, to_int}
use mimic_generator.Os.{Os, Call, History, PollEvent, perform}

abbrev pub max_epoll_events : ℕ
max_epoll_events = 20

-- Only the first `max_epoll_events` places of `events` are those of the array.
pub record PollHandler : Type 0 where
  pub fds_to_watch_for_read : List ℤ
  pub epollfd : ℤ
  pub events : ℕ → PollEvent
  pub event_index : ℕ
  pub current_event_count : ℤ

pub data EpollWatchType : Type 0 where
  read write : EpollWatchType

-- EPOLLIN | EPOLLET, and EPOLLOUT | EPOLLONESHOT | EPOLLET.
abbrev pub watch_mask : EpollWatchType → ℕ
watch_mask read = 1 + 2147483648
watch_mask write = 4 + 1073741824 + 2147483648

-- The set of descriptors.
abbrev pub is_in : ℤ → List ℤ → Bool
is_in fd [] = false
is_in fd (d ∷ ds) = if d ==ℤ fd then true else is_in fd ds

abbrev pub insert_fd : ℤ → List ℤ → List ℤ
insert_fd fd ds = if is_in fd ds then ds else fd ∷ ds

abbrev pub erase_fd : ℤ → List ℤ → List ℤ
erase_fd fd [] = []
erase_fd fd (d ∷ ds) = if d ==ℤ fd then erase_fd fd ds else d ∷ erase_fd fd ds

-- The bit EPOLLOUT.
abbrev pub has_out : PollEvent → Bool
has_out e = e.events / 4 % 2 == 1

-- The array after `epoll_wait` has answered a count.
abbrev pub fill : ℤ → (new old : ℕ → PollEvent) → ℕ → PollEvent
fill (pos n) new old i = if ltb i n then new i else old i
fill (negsuc n) new old i = old i

-- What one call of `nextEvent` does.
pub data Next : Type 0 where
  no_more : Next
  overrun : Next
  handed : PollEvent → PollHandler → History → Next

module _ (os : Os) where
  -- The constructor; none is the exception. The array is uninitialised: `stale`.
  unfoldable pub poll_handler : (stale : ℕ → PollEvent) → History → Option PollHandler × History
  poll_handler stale h =
      let (epollfd, h) = perform os Call.epoll_create h in
      if epollfd ==ℤ negsuc 0 then (none, h) else (
        some (record {
          fds_to_watch_for_read = [];
          epollfd = epollfd;
          events = stale;
          event_index = 0;
          current_event_count = pos 0;
        }),
        h,
      )

  -- A descriptor that is watched already is modified.
  unfoldable pub watch : PollHandler → ℤ → EpollWatchType → History → History
  watch p fd type h =
      let add = Call.epoll_add p.epollfd fd (watch_mask type) in
      let (status, h') = perform os add h in
      if (if status ==ℤ negsuc 0 then os.errno h add ==ℤ pos 17 else false)
      then (perform os (Call.epoll_mod p.epollfd fd (watch_mask type)) h').1
      else h'

  unfoldable pub watch_for_read : ℤ → PollHandler → History → PollHandler × History
  watch_for_read fd p h =
      let h = watch p fd read h in
      (record p { fds_to_watch_for_read = insert_fd fd p.fds_to_watch_for_read }, h)

  unfoldable pub watch_for_write : ℤ → PollHandler → History → PollHandler × History
  watch_for_write fd p h = (p, watch p fd write h)

  unfoldable pub stop_watching : ℤ → PollHandler → History → PollHandler × History
  stop_watching fd p h =
      let (status, h) = perform os (Call.epoll_del p.epollfd fd) h in
      if status ==ℤ negsuc 0
      then (record p { fds_to_watch_for_read = erase_fd fd p.fds_to_watch_for_read }, h)
      else (p, h)

  -- `epoll_wait` fills in as many events as it answers.
  unfoldable pub wait_for_events : (timeout : ℤ) → PollHandler → History → PollHandler × History
  wait_for_events timeout p h =
      let wait = Call.epoll_wait p.epollfd timeout in
      let (count, h') = perform os wait h in
      (
        record p {
          events = fill count (os.polled h wait) p.events;
          event_index = 0;
          current_event_count = count;
        },
        h',
      )

  -- A descriptor that was ready to be written and is watched for reads is armed again.
  abbrev pub rearm : PollEvent → PollHandler → History → PollHandler × History
  rearm e p h =
      if has_out e
      then (if is_in e.fd p.fds_to_watch_for_read then watch_for_read e.fd p h else (p, h))
      else (p, h)

  -- `overrun` is a read behind the array.
  unfoldable pub next_event : PollHandler → History → Next
  next_event p h =
      if p.current_event_count ==ℤ pos 0
      then no_more
      else if ltb p.event_index max_epoll_events
      then (let e = p.events p.event_index in
          let (q, h) = rearm e p h in
          handed e
            (record q {
              event_index = suc q.event_index;
              current_event_count = q.current_event_count -ℤ pos 1;
            })
            h)
      else overrun
