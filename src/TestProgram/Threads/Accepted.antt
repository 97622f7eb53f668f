-- ===== src/TestProgram/Threads/Accepted.antt =====
-- src/test.cpp: what becomes of the clients that are accepted.
use mathlib.Core.List.{map-append, append_assoc}
use mathlib.Core.Option.{some-injective}
use mimic_generator.Common.{
  ℕ, zero, suc, ◌+◌, ◌≡◌, refl, sym, ap, ◌∙◌, not, ◌&&◌, ◌||◌, Bool, true, false, inl, inr, none,
  some, List, [], ◌∷◌, ◌++◌, map, Bool-cases, bind-some, if◌then◌else◌, ◌==◌,
}
use Prim.Native.Nat.{bit_and}
use mimic_generator.Common.Int.{ℤ, pos, negsuc, ◌==ℤ◌, ◌+ℤ◌, ltb_ℤ, to_int}
use mimic_generator.EventQueue.Spec.{Fifo, push, pop-some}
use mimic_generator.Os.{Os, Call, History, PollEvent, or_nonblock}
use mimic_generator.Connections.{af_inet, swap16, to_u16}
use mimic_generator.TestProgram.{
  start_port, watch_in, has_error, listen_at, listen_all, server_setup, accept_on, read_from,
  read_from_socket, handler_setup, watch_job, handle_socket,
}
use mimic_generator.TestProgram.Threads.{
  State, Step, waits, accepts, takes, polls, handles, Reach, start, later,
}

-- The descriptors that were added to an epoll instance, the first one first.
abbrev pub watched : History → List ℤ
watched [] = []
watched (Call.epoll_add efd fd mask ∷ h) = watched h ++ fd ∷ []
watched (_ ∷ h) = watched h

all_succeed :
    {A : Type 0} {x r : A} (set bound listens watches : Bool)
    → (if set
        then none
        else if bound
        then none
        else if listens
        then none
        else if watches
        then some x
        else none)
      ≡ some r
    → x ≡ r
all_succeed true bound listens watches e = absurd (cc)
all_succeed false true listens watches e = absurd (cc)
all_succeed false false true watches e = absurd (cc)
all_succeed false false false true e = some-injective _ _ e
all_succeed false false false false e = absurd (cc)

module _ (os : Os) where
  -- The client that an `accept` answers, if there is one and `fcntl`, called next but one, succeeds.
  abbrev pub accepted : History → List ℤ
  accepted [] = []
  accepted (Call.fcntl_setfl fd flags ∷ Call.fcntl_getfl fd' ∷ Call.accept l ∷ h) =
      let client = os.result h (Call.accept l) in
      let earlier = accepted h in
      if not (client ==ℤ negsuc 0)
        && not (
            os.result (Call.fcntl_getfl fd' ∷ Call.accept l ∷ h) (Call.fcntl_setfl fd flags)
            ==ℤ negsuc 0)
      then earlier ++ client ∷ []
      else earlier
  accepted (_ ∷ h) = accepted h

  accepted-kept :
      (fd flags fd' l : ℤ) (h : History) (kept : Bool)
      → (not (os.result h (Call.accept l) ==ℤ negsuc 0)
          && not (
              os.result (Call.fcntl_getfl fd' ∷ Call.accept l ∷ h) (Call.fcntl_setfl fd flags)
              ==ℤ negsuc 0))
        ≡ kept
      → accepted (Call.fcntl_setfl fd flags ∷ Call.fcntl_getfl fd' ∷ Call.accept l ∷ h)
        ≡ (if kept then accepted h ++ os.result h (Call.accept l) ∷ [] else accepted h)
  accepted-kept fd flags fd' l h kept is = rw is refl

  abbrev sockfds : Fifo → List ℤ
  sockfds q = map (λ e. e.sockfd) q

  accept_on-accepted :
      (e : PollEvent) (q : Fifo) (h : History) (ws : List ℤ)
      → ws ++ sockfds q ≡ accepted h
      → ws ++ sockfds (accept_on os e q h).0 ≡ accepted (accept_on os e q h).1
  unfolding accept_on push
  accept_on-accepted e q h ws all =
      let client = os.result h (Call.accept e.fd) in
      let h₁ = Call.accept e.fd ∷ h in
      let h₂ = Call.fcntl_getfl client ∷ h₁ in
      let set = Call.fcntl_setfl client (or_nonblock (os.result h₁ (Call.fcntl_getfl client))) in
      let is_kept = not (client ==ℤ negsuc 0) && not (os.result h₂ set ==ℤ negsuc 0) in
      let counts =
        accepted-kept client (or_nonblock (os.result h₁ (Call.fcntl_getfl client))) client e.fd h in
      elim (Bool-cases (has_error e)) [
        | inl bad ↦ rw bad all
        | inr good ↦ elim (Bool-cases is_kept) [
          | inl kept ↦
              rw (good, kept, map-append (λ e. e.sockfd) q)
                (sym (append_assoc ws (sockfds q) (client ∷ []))
                  ∙ ap (λ fds. fds ++ client ∷ []) all
                  ∙ sym (counts true kept))
          | inr left ↦ rw (good, left) (all ∙ sym (counts false left))
        ]
      ]

  listen_at-accepted :
      (efd : ℤ) (ip port : ℕ) (h : History) (r : ℤ × History)
      → listen_at os efd ip port h ≡ some r
      → accepted h ≡ []
      → accepted r.1 ≡ []
  unfolding listen_at
  listen_at-accepted efd ip port h r e none_yet =
      let fd = os.result h Call.socket in
      let h₁ = Call.socket ∷ h in
      let h₂ = Call.fcntl_getfl fd ∷ h₁ in
      let set = Call.fcntl_setfl fd (or_nonblock (os.result h₁ (Call.fcntl_getfl fd))) in
      let h₃ = set ∷ h₂ in
      let bind =
        Call.bind fd (record { family = af_inet; addr = ip; port = swap16 (to_u16 (pos port)) }) in
      let h₄ = bind ∷ h₃ in
      let h₅ = Call.listen fd (pos 3) ∷ h₄ in
      let add = Call.epoll_add efd fd watch_in in
      let end =
        all_succeed {x = (fd, add ∷ h₅)} (os.result h₂ set ==ℤ negsuc 0)
          (ltb_ℤ (os.result h₃ bind) (pos 0)) (os.result h₄ (Call.listen fd (pos 3)) ==ℤ negsuc 0)
          (os.result h₅ add ==ℤ pos 0) e in
      ap (λ (x : ℤ × History). accepted x.1) (sym end) ∙ none_yet

  listen_all-accepted :
      (n i : ℕ) (efd : ℤ) (ip : ℕ) (h : History) (r : List ℤ × History)
      → listen_all os n i efd ip h ≡ some r
      → accepted h ≡ []
      → accepted r.1 ≡ []
  unfolding listen_all
  listen_all-accepted zero i efd ip h r e none_yet =
      ap (λ x. accepted x.1) (sym (some-injective _ _ e)) ∙ none_yet
  listen_all-accepted (suc n) i efd ip h r e none_yet =
      let (a, at, e₁) = bind-some (listen_at os efd ip (start_port + i) h) _ r e in
      let (b, at₁, e₂) = bind-some (listen_all os n (suc i) efd ip a.1) _ r e₁ in
      ap (λ x. accepted x.1) (sym (some-injective _ _ e₂))
      ∙ listen_all-accepted n (suc i) efd ip a.1 b at₁
          (listen_at-accepted efd ip (start_port + i) h a at none_yet)

  read_from-watched :
      (k : ℕ) (fd count : ℤ) (h : History) (r : ℤ × Bool × History)
      → read_from os k fd count h ≡ some r
      → watched r.2 ≡ watched h
  unfolding read_from
  read_from-watched zero fd count h r e = absurd (cc)
  read_from-watched (suc k) fd count h r e =
      let c = to_int (os.result h (Call.read fd 10)) in
      let end = λ (count : ℤ) (done : Bool) (at : some (count, done, Call.read fd 10 ∷ h) ≡ some r).
        ap (λ x. watched x.2) (sym (some-injective _ _ at)) in
      elim (Bool-cases (c ==ℤ negsuc 0)) [
        | inl failed ↦ end _ _ (rw failed at e)
        | inr read ↦ elim (Bool-cases (c ==ℤ pos 0)) [
          | inl ended ↦ end _ _ (rw (read, ended) at e)
          | inr more ↦
              read_from-watched k fd (to_int (count +ℤ c)) (Call.read fd 10 ∷ h) r
                (rw (read, more) at e)
        ]
      ]

  handle_socket-watched :
      (k : ℕ) (e : PollEvent) (h h' : History)
      → handle_socket os k e h ≡ some h'
      → watched h' ≡ watched h
  unfolding handle_socket read_from_socket
  handle_socket-watched k e h h' at = elim (Bool-cases (has_error e || bit_and e.events 1 == 0)) [
    | inl bad ↦ ap watched (sym (some-injective _ _ (rw bad at at)))
    | inr good ↦
        let (r, at₁, e₁) =
          bind-some (read_from os k e.fd (pos 0) h) (λ r. some r.2) h' (rw good at at) in
        ap watched (sym (some-injective _ _ e₁)) ∙ read_from-watched k e.fd (pos 0) h r at₁
  ]

  server_setup-accepted :
      (num_conns ip : ℕ) (efd : ℤ) (sockets : List ℤ) (h : History)
      → server_setup os num_conns ip [] ≡ some (efd, sockets, h)
      → accepted h ≡ []
  unfolding server_setup
  server_setup-accepted num_conns ip efd sockets h e =
      let made = os.result [] Call.epoll_create in
      elim (Bool-cases (made ==ℤ negsuc 0)) [
        | inl failed ↦ absurd (let e' = rw failed at e in cc)
        | inr ok ↦
            let (a, at, e₁) =
              bind-some (listen_all os num_conns 0 made ip (Call.epoll_create ∷ []))
                (λ x. some (made, x.0, x.1)) (efd, sockets, h) (rw ok at e) in
            ap (λ (x : ℤ × List ℤ × History). accepted x.2) (sym (some-injective _ _ e₁))
            ∙ listen_all-accepted num_conns 0 made ip (Call.epoll_create ∷ []) a at refl
      ]

  handler_setup-watched :
      (efd : ℤ) (h : History) → handler_setup os [] ≡ some (efd, h) → watched h ≡ []
  unfolding handler_setup
  handler_setup-watched efd h e = elim (Bool-cases (os.result [] Call.epoll_create ==ℤ negsuc 0)) [
    | inl failed ↦ absurd (let e' = rw failed at e in cc)
    | inr ok ↦ ap (λ (x : ℤ × History). watched x.1) (sym (some-injective _ _ (rw ok at e)))
  ]

  Step-watched :
      {server_efd handler_efd : ℤ} {s t : State}
      → Step os server_efd handler_efd s t
      → watched s.handler ++ sockfds s.eq ≡ accepted s.server
      → watched t.handler ++ sockfds t.eq ≡ accepted t.server
  unfolding watch_job
  Step-watched (waits n rest count k) all = rw k all
  Step-watched {s} (accepts e left at k) all =
      rw k (accept_on-accepted e s.eq s.server (watched s.handler) all)
  Step-watched {s} (takes q job rest got k) all = rw k (
      append_assoc (watched s.handler) (job.sockfd ∷ []) (sockfds q)
      ∙ ap (λ es. watched s.handler ++ sockfds es) (sym (pop-some s.eq q job got))
      ∙ all)
  Step-watched (polls n rest got count k) all = rw k all
  Step-watched {s} (handles n e left h at run k) all =
      rw k (ap (λ fds. fds ++ sockfds s.eq) (handle_socket-watched n e s.handler h run) ∙ all)

  -- However the steps of the two threads are interleaved: the clients that the second thread watches
  -- are the first of those that the first thread has accepted and could set to non-blocking, each once
  -- and in their order, and the rest are in the queue.
  pub watched-accepted :
      {num_conns ip : ℕ} {server_efd handler_efd : ℤ} {s : State}
      → Reach os num_conns ip server_efd handler_efd s
      → watched s.handler ++ map (λ e. e.sockfd) s.eq ≡ accepted s.server
  watched-accepted {num_conns} {ip} {server_efd} {handler_efd}
        (start sockets server handler up up') =
      rw
        (
          server_setup-accepted num_conns ip server_efd sockets server up,
          handler_setup-watched handler_efd handler up',
        )
        refl
  watched-accepted (later r st) = Step-watched st (watched-accepted r)
