-- ===== src/EventHandler/Posix.antt =====
-- src/eventHandler.cpp: which descriptors are open, over system calls that behave as documented.
use mimic_generator.Common.{◌≡◌, ap, ◌∙◌, inl, inr, ◌⊎◌, Bool-cases, true, false, some, ◌∷◌, arith}
use mimic_generator.Common.Int.{ℤ, negsuc, ◌==ℤ◌, ==ℤ_iff}
use mimic_generator.Common.Maps.{int_eq, text_eq_instance}
use mimic_generator.EventNotifier.{EventNotifier, send_signal}
use mimic_generator.Os.{Os, Call, History, PollEvent, SockAddr, is_open, or_nonblock}
use mimic_generator.Connections.Sockets.{
  get_ipv4_tcp_sock, set_ipv4_tcp_non_blocking, get_ipv4_tcp_sock-is_open,
  get_ipv4_tcp_sock-returns,
}
use mimic_generator.PollHandler.{PollHandler, handed, watch, watch_for_read, wait_for_events}
use mimic_generator.PollHandler

-- What is documented of the calls: a new descriptor is not one that is open, and -1 is none.
pub record IsPosix (os : Os) : Type 0 where
  pub socket_new :
      (h : History)
      → (os.result h Call.socket ≡ negsuc 0) ⊎ (is_open os (os.result h Call.socket) h ≡ false)
  pub accept_new :
      (h : History) (fd : ℤ)
      → (os.result h (Call.accept fd) ≡ negsuc 0)
        ⊎ (is_open os (os.result h (Call.accept fd)) h ≡ false)
  pub connect_bad :
      (h : History) (a : SockAddr) → os.result h (Call.connect (negsuc 0) a) ≡ negsuc 0
  pub setfl_bad :
      (h : History) (flags : ℤ) → os.result h (Call.fcntl_setfl (negsuc 0) flags) ≡ negsuc 0

module _ (os : Os) where
  -- What was open after the calls `h` is open after the calls `h'`.
  abbrev pub Stays : History → History → Type 0
  Stays h h' = (fd : ℤ) → is_open os fd h ≡ true → is_open os fd h' ≡ true

  pub non_blocking-Stays : (s : ℤ) (h : History) → Stays h (set_ipv4_tcp_non_blocking os s h).1
  unfolding set_ipv4_tcp_non_blocking
  non_blocking-Stays s h fd o = ground arith

  pub sock-Stays : (a : SockAddr) (h : History) → Stays h (get_ipv4_tcp_sock os (some a) h).1
  unfolding get_ipv4_tcp_sock
  sock-Stays a h fd o =
      let s = os.result h Call.socket in ground (arith, non_blocking-Stays s (Call.socket ∷ h) fd)

  pub next_event-Stays :
      (p q : PollHandler) (e : PollEvent) (calls calls' : History)
      → PollHandler.next_event os p calls ≡ handed e q calls'
      → Stays calls calls'
  unfolding PollHandler.next_event watch_for_read watch
  next_event-Stays p q e calls calls' at fd o = ground arith

  pub send_signal-Stays : (n : EventNotifier) (h : History) → Stays h (send_signal os n h).1
  unfolding send_signal
  send_signal-Stays n h fd o = ground arith

module _ (os : Os) (posix : IsPosix os) where
  -- What getIPv4TCPSock returns is -1, or a descriptor that was not open before, and is open now.
  pub sock-new :
      (a : SockAddr) (h : History)
      → let r = get_ipv4_tcp_sock os (some a) h in
        (r.0 ≡ negsuc 0) ⊎ ((is_open os r.0 h ≡ false) × (is_open os r.0 r.1 ≡ true))
  sock-new a h =
      let s = os.result h Call.socket in
      let r = get_ipv4_tcp_sock os (some a) h in
      elim (get_ipv4_tcp_sock-returns os a h) [
        | inl bad ↦ inl bad
        | inr at ↦ elim (posix.socket_new h) [
          | inl bad ↦ inl (at ∙ bad)
          | inr new ↦ elim (Bool-cases (s ==ℤ negsuc 0)) [
            | inl bad ↦ inl (at ∙ ==ℤ_iff s (negsuc 0) bad)
            | inr made ↦ inr (
              ap (λ x. is_open os x h) at ∙ new,
              ap (λ x. is_open os x r.1) at ∙ get_ipv4_tcp_sock-is_open os a h made,
            )
          ]
        ]
      ]

  pub non_blocking-bad : (h : History) → (set_ipv4_tcp_non_blocking os (negsuc 0) h).0 ≡ negsuc 0
  unfolding set_ipv4_tcp_non_blocking
  non_blocking-bad h =
      let getfl = Call.fcntl_getfl (negsuc 0) in
      ground (arith, posix.setfl_bad (getfl ∷ h) (or_nonblock (os.result h getfl)))
