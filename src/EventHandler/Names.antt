-- ===== src/EventHandler/Names.antt =====
-- src/eventHandler.cpp: the connection that an accepted client is taken for.
use mimic_generator.Common.{
  ◌≡◌, refl, sym, ap, ◌∙◌, ◌⊎◌, inl, inr, Bool, false, Option, none, some, [], ◌∷◌, Bool-cases,
}
use mathlib.Core.Option.{some-injective}
use mathlib.Core.Path.{ap₂}
use mimic_generator.Common.Int.{ℤ, pos, negsuc, ltb_ℤ, ◌==ℤ◌}
use mimic_generator.Common.Maps.{
  Map, Text, text_eq, text_eq_iff, find, find-insert, find-insert_self, find-insert-some, int_eq,
  text_eq_instance,
}
use mimic_generator.EventHeap.{compare_events}
use mimic_generator.EventHeap.Contract.{JobHeap}
use mimic_generator.Os.{Os, Call, SockAddr, History}
use mimic_generator.Connections.{Inet, ConnectionPair, get_conn_string}
use mimic_generator.Connections.Identity.{IsDotted, IsInet, get_conn_string-injective}
use mimic_generator.Connections.Sockets.{set_ipv4_tcp_non_blocking}
use mimic_generator.EventHandler.{Handler, new_connection_update, name_connections}
use mimic_generator.EventHandler.Dispatch.{accept_named, accept_new_connection}

-- The connection stands in the map.
abbrev pub Listed : ℤ → ConnectionPair → Map ℤ ConnectionPair → Type 0
Listed c p [] = ⊥
Listed c p ((d, q) ∷ conns) = ((d ≡ c) × (q ≡ p)) ⊎ Listed c p conns

abbrev pub AllInet : Map ℤ ConnectionPair → Type 0
AllInet [] = Unit
AllInet ((d, q) ∷ conns) = (IsInet q.src × IsInet q.dst) × AllInet conns

pub Listed-IsInet :
    (c : ℤ) (p : ConnectionPair) (conns : Map ℤ ConnectionPair)
    → AllInet conns
    → Listed c p conns
    → IsInet p.src × IsInet p.dst
Listed-IsInet c p [] all l = elim l [ ]
Listed-IsInet c p ((d, q) ∷ conns) all (inl (k, e)) = rw (sym e) all.0
Listed-IsInet c p ((d, q) ∷ conns) all (inr l) = Listed-IsInet c p conns all.1 l

module _ (inet : Inet) where
  unfoldable pub string_of : ConnectionPair → Text
  string_of p = (get_conn_string inet p.src p.dst).0

  -- A name leads to a connection that has it.
  pub named-Listed :
      (s : Text) (c : ℤ) (conns : Map ℤ ConnectionPair) (names : Map Text ℤ)
      → find s (name_connections inet conns names) ≡ some c
      → ((p : ConnectionPair) × Listed c p conns × (string_of p ≡ s)) ⊎ (find s names ≡ some c)
  unfolding get_conn_string string_of
  named-Listed s c [] names e = inr e
  named-Listed s c ((d, q) ∷ conns) names e = elim (named-Listed s c conns _ e) [
    | inl (p, l, same) ↦ inl (p, inr l, same)
    | inr e' ↦
        let e'' = sym (find-insert (string_of q) s d names) ∙ e' in
        elim (Bool-cases (text_eq (string_of q) s)) [
          | inl same ↦ inl (
            q,
            inl (some-injective d c (rw same at e''), refl),
            (text_eq_iff (string_of q) s).0 same,
          )
          | inr other ↦ inr (rw other at e'')
        ]
  ]

  -- A connection in the map has a name that is found.
  named_of_Listed :
      (c : ℤ) (p : ConnectionPair) (conns : Map ℤ ConnectionPair) (names : Map Text ℤ)
      → Listed c p conns ⊎ ((d : ℤ) × (find (string_of p) names ≡ some d))
      → (d : ℤ) × (find (string_of p) (name_connections inet conns names) ≡ some d)
  unfolding get_conn_string string_of
  named_of_Listed c p [] names (inl l) = elim l [ ]
  named_of_Listed c p [] names (inr known) = known
  named_of_Listed c p ((d, q) ∷ conns) names (inl (inr l)) = named_of_Listed c p conns _ (inl l)
  named_of_Listed c p ((d, q) ∷ conns) names (inl (inl (k, e))) =
      named_of_Listed c p conns _ (inr (d, rw (sym e) (find-insert_self (string_of q) d names)))
  named_of_Listed c p ((d, q) ∷ conns) names (inr (k, e)) =
      named_of_Listed c p conns _ (inr (find-insert-some (string_of q) (string_of p) d k names e))

module _ (os : Os) (inet : Inet) {J : JobHeap compare_events} where
  -- The client of the next connection on `fd`.
  abbrev pub client : ℤ → Handler J → SockAddr
  client fd h = os.filled h.calls (Call.accept fd)

  abbrev pub accepted : ℤ → Handler J → ℤ
  accepted fd h = os.result h.calls (Call.accept fd)

  -- What makes the accepted socket non-blocking.
  abbrev pub set_up : ℤ → Handler J → ℤ × History
  set_up fd h = set_ipv4_tcp_non_blocking os (accepted fd h) (Call.accept fd ∷ h.calls)

  -- The address that `getsockname` gives for `fd` then.
  abbrev pub server : ℤ → Handler J → SockAddr
  server fd h = os.filled (set_up fd h).1 (Call.getsockname fd)

  -- Both checks of system calls pass.
  abbrev pub IsUp : ℤ → Handler J → Type 0
  IsUp fd h =
      (ltb_ℤ (set_up fd h).0 (pos 0) ≡ false)
      × ((os.result (set_up fd h).1 (Call.getsockname fd) ==ℤ negsuc 0) ≡ false)

  abbrev pub name_of : ℤ → Handler J → Text
  name_of fd h = (get_conn_string inet (client fd h) (server fd h)).0

  abbrev pub named : (fd now : ℤ) → Handler J → Handler J × Option Bool
  named fd now h =
      accept_named (find (name_of fd h) h.str_to_conn_id) (accepted fd h) now
        (record h { calls = Call.getsockname fd ∷ (set_up fd h).1 })

  pub accept_cases :
      (fd now : ℤ) (h : Handler J)
      → ((calls : History) × (accept_new_connection os inet fd now h
            ≡ (record h { calls = calls }, some false)))
        ⊎ (IsUp fd h × (accept_new_connection os inet fd now h ≡ named fd now h))
  unfolding accept_new_connection get_conn_string
  accept_cases fd now h = elim (Bool-cases (ltb_ℤ (set_up fd h).0 (pos 0))) [
    | inl low ↦ inl ((set_up fd h).1, rw low refl)
    | inr ok ↦ elim (Bool-cases (os.result (set_up fd h).1 (Call.getsockname fd) ==ℤ negsuc 0)) [
      | inl bad ↦ inl (Call.getsockname fd ∷ (set_up fd h).1, rw (ok, bad) refl)
      | inr good ↦ inr ((ok, good), rw (ok, good) refl)
    ]
  ]

  accept_up :
      (fd now : ℤ) (h : Handler J)
      → IsUp fd h
      → accept_new_connection os inet fd now h ≡ named fd now h
  unfolding accept_new_connection get_conn_string
  accept_up fd now h (ok, good) = rw (ok, good) refl

  accept_named-known :
      (o : Option ℤ) (new_sockfd now : ℤ) (h : Handler J)
      → (accept_named o new_sockfd now h).1 ≡ none
      → (c : ℤ) × (o ≡ some c)
        × (find c (accept_named o new_sockfd now h).0.conn_to_sockfd_id_map ≡ some new_sockfd)
  unfolding accept_named new_connection_update
  accept_named-known none new_sockfd now h e = absurd (cc)
  accept_named-known (some c) new_sockfd now h e =
      (c, refl, find-insert_self c new_sockfd h.conn_to_sockfd_id_map)

  -- After `startup`, a client is registered if its address and the server's are those of a
  -- connection of the map, and the system calls for its socket succeed.
  pub accept_new_connection_complete :
      (fd now : ℤ) (h : Handler J) (c : ℤ) (p : ConnectionPair)
      → h.str_to_conn_id ≡ name_connections inet h.conn_id_to_connection_map []
      → IsUp fd h
      → Listed c p h.conn_id_to_connection_map
      → p.src ≡ client fd h
      → p.dst ≡ server fd h
      → (accept_new_connection os inet fd now h).1 ≡ none
  unfolding string_of accept_named
  accept_new_connection_complete fd now h c p started up l es ed =
      let (d, found) = named_of_Listed inet c p h.conn_id_to_connection_map [] (inl l) in
      let same : string_of inet p ≡ name_of fd h =
        ap₂ (λ a b. (get_conn_string inet a b).0) es ed in
      let known = ap₂ find (sym same) started ∙ found in
      ap (λ q. q.1) (accept_up fd now h up)
      ∙ ap
          (λ o.
            (accept_named o (accepted fd h) now
              (record h { calls = Call.getsockname fd ∷ (set_up fd h).1 })).1)
          known

  module _ (dotted : IsDotted inet) where
    -- After `startup` over IPv4 connections, a client that `acceptNewConnection` registers gets its
    -- socket under a connection of the map that has the client's address as its source and the
    -- server's as its destination.
    pub accept_new_connection-Listed :
        (fd now : ℤ) (h : Handler J)
        → AllInet h.conn_id_to_connection_map
        → h.str_to_conn_id ≡ name_connections inet h.conn_id_to_connection_map []
        → IsInet (client fd h)
        → IsInet (server fd h)
        → (accept_new_connection os inet fd now h).1 ≡ none
        → (c : ℤ) × (p : ConnectionPair) × Listed c p h.conn_id_to_connection_map
          × (p.src ≡ client fd h)
          × (p.dst ≡ server fd h)
          × (find c (accept_new_connection os inet fd now h).0.conn_to_sockfd_id_map
              ≡ some (accepted fd h))
    unfolding string_of find
    accept_new_connection-Listed fd now h all started ic is e = elim (accept_cases fd now h) [
      | inl (calls, no_socket) ↦ absurd (let e' = ap (λ q. q.1) (sym no_socket) ∙ e in cc)
      | inr (up, same) ↦
          let (c, found, at) = accept_named-known _ _ now _ (ap (λ q. q.1) (sym same) ∙ e) in
          elim (named-Listed inet (name_of fd h) c h.conn_id_to_connection_map []
            (ap (λ m. find (name_of fd h) m) (sym started) ∙ found)) [
              | inl (p, l, name) ↦
                  let (ips, ipd) = Listed-IsInet c p h.conn_id_to_connection_map all l in
                  let (es, ed) = get_conn_string-injective inet dotted ips ipd ic is name in
                  (c, p, l, es, ed, ap (λ q. find c q.0.conn_to_sockfd_id_map) same ∙ at)
              | inr nothing ↦ absurd (cc)
            ]
    ]
