-- ===== src/Connections/Sockets.antt =====
-- src/connections.cpp: making a non-blocking socket.
use mimic_generator.Common.{
  ◌≡◌, refl, ◌⊎◌, inl, inr, true, false, Option, none, some, ◌∷◌, arith, if◌then◌else◌, Bool-cases,
}
use mimic_generator.Common.Int.{ℤ, pos, negsuc, ltb_ℤ, ◌==ℤ◌, ==ℤ_refl}
use mimic_generator.Os.{SockAddr, Call, History, Os, perform, is_open, or_nonblock}

module _ (os : Os) where
  unfoldable pub set_ipv4_tcp_non_blocking : ℤ → History → ℤ × History
  set_ipv4_tcp_non_blocking sockfd h =
      let (flags, h) = perform os (Call.fcntl_getfl sockfd) h in
      let (status, h) = perform os (Call.fcntl_setfl sockfd (or_nonblock flags)) h in
      if status ==ℤ negsuc 0 then (negsuc 0, h) else (status, h)

  -- None is the null pointer.
  unfoldable pub get_ipv4_tcp_sock : Option SockAddr → History → ℤ × History
  get_ipv4_tcp_sock sa h =
      let (s, h) = perform os Call.socket h in
      let (_, h) = set_ipv4_tcp_non_blocking s h in
      elim sa [
        | none ↦ (s, h)
        | some a ↦
            let (status, h) = perform os (Call.bind s a) h in
            if ltb_ℤ status (pos 0) then (negsuc 0, h) else (s, h)
      ]

  non_blocking-is_open :
      (s : ℤ) (h : History)
      → is_open os s h ≡ true
      → is_open os s (set_ipv4_tcp_non_blocking s h).1 ≡ true
  unfolding set_ipv4_tcp_non_blocking
  non_blocking-is_open s h o = ground arith

  -- The descriptor that `socket` answers, if it is not -1, is open after `getIPv4TCPSock`.
  pub get_ipv4_tcp_sock-is_open :
      (a : SockAddr) (h : History)
      → (os.result h Call.socket ==ℤ negsuc 0) ≡ false
      → is_open os (os.result h Call.socket) (get_ipv4_tcp_sock (some a) h).1 ≡ true
  unfolding get_ipv4_tcp_sock
  get_ipv4_tcp_sock-is_open a h made =
      let s = os.result h Call.socket in
      let kept = non_blocking-is_open s (Call.socket ∷ h) (ground (arith, made, ==ℤ_refl s)) in
      ground (arith, kept)

  -- It is what `getIPv4TCPSock` returns, if that isn't -1.
  pub get_ipv4_tcp_sock-returns :
      (a : SockAddr) (h : History)
      → ((get_ipv4_tcp_sock (some a) h).0 ≡ negsuc 0)
        ⊎ ((get_ipv4_tcp_sock (some a) h).0 ≡ os.result h Call.socket)
  unfolding get_ipv4_tcp_sock
  get_ipv4_tcp_sock-returns a h =
      let s = os.result h Call.socket in
      let h' = (set_ipv4_tcp_non_blocking s (Call.socket ∷ h)).1 in
      elim (Bool-cases (ltb_ℤ (os.result h' (Call.bind s a)) (pos 0))) [
        | inl low ↦ rw low (inl refl)
        | inr ok ↦ rw ok (inr refl)
      ]
