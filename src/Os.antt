-- ===== src/Os.antt =====
-- The system calls that the program makes. What a call answers is a parameter, a function of the
-- calls made before it; what the program does to the outside is the list of its calls.
use mimic_generator.Common.{ℕ, zero, suc, List, [], ◌∷◌, Bool, true, false, if◌then◌else◌}
use mimic_generator.Common.Int.{ℤ, pos, negsuc, ◌==ℤ◌}
use Prim.Native.Nat.{◌-◌, bit_and, bit_or}

-- struct sockaddr_in, with the address and the port in network byte order.
pub record SockAddr : Type 0 where
  pub family : ℕ
  pub addr : ℕ
  pub port : ℕ

-- struct epoll_event, with the descriptor in its data.
pub record PollEvent : Type 0 where
  pub events : ℕ
  pub fd : ℤ

pub data Call : Type 0 where
  socket : Call
  socket_inet6 : Call
  fcntl_getfl : ℤ → Call
  fcntl_setfl : ℤ → (flags : ℤ) → Call
  bind : ℤ → SockAddr → Call
  listen : ℤ → (backlog : ℤ) → Call
  connect : ℤ → SockAddr → Call
  accept : ℤ → Call
  getsockname : ℤ → Call
  getpeername : ℤ → Call
  send : ℤ → (size : ℕ) → Call
  read : ℤ → (size : ℕ) → Call
  close : ℤ → Call
  epoll_create : Call
  epoll_add : (epfd : ℤ) → ℤ → (events : ℕ) → Call
  epoll_mod : (epfd : ℤ) → ℤ → (events : ℕ) → Call
  epoll_del : (epfd : ℤ) → ℤ → Call
  epoll_wait : (epfd : ℤ) → (timeout : ℤ) → Call
  eventfd : Call
  write_eventfd : ℤ → ℕ → Call
  read_eventfd : ℤ → Call

-- The calls made, the latest first.
abbrev pub History : Type 0
History = List Call

-- The result of a call, `errno` after it, the address that `accept` and `getsockname` fill in, and
-- the events that `epoll_wait` fills in, by their place.
pub record Os : Type 0 where
  pub result : History → Call → ℤ
  pub errno : History → Call → ℤ
  pub filled : History → Call → SockAddr
  pub polled : History → Call → ℕ → PollEvent

-- The events that `epoll_wait` fills in from the place `i` on, `n` of them.
abbrev pub entries : (ℕ → PollEvent) → (i n : ℕ) → List PollEvent
entries events i zero = []
entries events i (suc n) = events i ∷ entries events (suc i) n

abbrev pub closes : Call → ℤ → Bool
closes (Call.close d) fd = d ==ℤ fd
closes _ fd = false

-- A call that answers `r` has made the descriptor `fd`.
abbrev pub is_made : (r fd : ℤ) → Bool
is_made r fd = if r ==ℤ negsuc 0 then false else r ==ℤ fd

module _ (os : Os) where
  -- The result of a call made after the calls of `h`, and the calls made then.
  abbrev pub perform : Call → History → ℤ × History
  perform c h = (os.result h c, c ∷ h)

  -- The call answers this descriptor as a new one, and not -1 because it failed.
  abbrev pub makes : History → Call → ℤ → Bool
  makes h Call.socket fd = is_made (os.result h Call.socket) fd
  makes h Call.socket_inet6 fd = is_made (os.result h Call.socket_inet6) fd
  makes h (Call.accept l) fd = is_made (os.result h (Call.accept l)) fd
  makes h _ fd = false

  -- The descriptor was made by one of the calls and no later one closed it.
  abbrev pub is_open : ℤ → History → Bool
  is_open fd [] = false
  is_open fd (c ∷ h) = if closes c fd then false else if makes h c fd then true else is_open fd h

-- `flags | O_NONBLOCK`, in two's complement.
unfoldable pub or_nonblock : ℤ → ℤ
or_nonblock (pos n) = pos (bit_or n 2048)
or_nonblock (negsuc n) = negsuc (n - bit_and n 2048)
