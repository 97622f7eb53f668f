-- ===== src/EventQueue/Sockets.antt =====
-- src/eventQueue.cpp: the helpers for sockets at its end.
use mimic_generator.Common.{
  ◌≡◌, refl, inl, inr, Bool, true, false, if◌then◌else◌, Bool-cases, ◌∷◌, arith,
}
use mimic_generator.Common.Int.{ℤ, negsuc, ◌==ℤ◌, ==ℤ_refl}
use mimic_generator.Event.{TransportType, tcp, udp, DomainType, ipv4, ipv6}
use mimic_generator.Os.{Os, Call, History, perform, is_open, or_nonblock}

-- The call of `socket` for a domain.
abbrev pub socket_of : DomainType → Call
socket_of ipv4 = Call.socket
socket_of ipv6 = Call.socket_inet6

module _ (os : Os) where
  unfoldable pub set_non_blocking : ℤ → History → Bool × History
  set_non_blocking sockfd h =
      let (flags, h) = perform os (Call.fcntl_getfl sockfd) h in
      let (status, h) = perform os (Call.fcntl_setfl sockfd (or_nonblock flags)) h in
      if status ==ℤ negsuc 0 then (false, h) else (true, h)

  -- `localAddr` is not used.
  unfoldable pub get_socket : DomainType → TransportType → History → ℤ × History
  get_socket domain udp h = (negsuc 0, h)
  get_socket domain tcp h =
      let (sockfd, h) = perform os (socket_of domain) h in
      if sockfd ==ℤ negsuc 0
      then (negsuc 0, h)
      else (let (done, h) = set_non_blocking sockfd h in
          if done then (sockfd, h) else (negsuc 0, h))

  -- What `getSocket` may do: it makes no call, or it fails to make a socket, or it makes one, which
  -- stays open also where it cannot be set to non-blocking and -1 is returned.
  abbrev pub Outcome : DomainType → TransportType → History → ℤ × History → Type 0
  Outcome domain udp h (r, h') = (r ≡ negsuc 0) × (h' ≡ h)
  Outcome domain tcp h (r, h') =
      let s = os.result h (socket_of domain) in
      if s ==ℤ negsuc 0
      then (r ≡ negsuc 0) × (h' ≡ socket_of domain ∷ h)
      else (is_open os s h' ≡ true)
        × (r ≡ (if (set_non_blocking s (socket_of domain ∷ h)).0 then s else negsuc 0))

  made_is_open :
      (domain : DomainType) (h : History)
      → (os.result h (socket_of domain) ==ℤ negsuc 0) ≡ false
      → is_open os (os.result h (socket_of domain)) (socket_of domain ∷ h) ≡ true
  made_is_open ipv4 h made = ground (arith, made, ==ℤ_refl (os.result h Call.socket))
  made_is_open ipv6 h made = ground (arith, made, ==ℤ_refl (os.result h Call.socket_inet6))

  non_blocking-is_open :
      (s : ℤ) (h : History) → is_open os s h ≡ true → is_open os s (set_non_blocking s h).1 ≡ true
  unfolding set_non_blocking
  non_blocking-is_open s h o = ground arith

  -- `getSocket` makes no call and returns -1 for a transport that is not TCP; for TCP it makes a
  -- socket of the domain. If that fails it returns -1. If not, the socket is open afterwards, and is
  -- what it returns, or -1 if it cannot be set to non-blocking.
  pub get_socket-Outcome :
      (domain : DomainType) (type : TransportType) (h : History)
      → Outcome domain type h (get_socket domain type h)
  unfolding get_socket
  get_socket-Outcome domain udp h = (refl, refl)
  get_socket-Outcome domain tcp h =
      let s = os.result h (socket_of domain) in
      elim (Bool-cases (s ==ℤ negsuc 0)) [
        | inl failed ↦ rw failed (refl, refl)
        | inr made ↦
            let open_after =
              non_blocking-is_open s (socket_of domain ∷ h) (made_is_open domain h made) in
            elim (Bool-cases (set_non_blocking s (socket_of domain ∷ h)).0) [
              | inl done ↦ rw (made, done) (open_after, refl)
              | inr blocked ↦ rw (made, blocked) (open_after, refl)
            ]
      ]
