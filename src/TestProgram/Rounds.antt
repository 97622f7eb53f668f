-- ===== src/TestProgram/Rounds.antt =====
-- src/test.cpp: a round of either thread is a sequence of its steps.
use mathlib.Core.Path.{subst}
use mathlib.Core.Option.{some-injective}
use mimic_generator.Common.{
  ℕ, zero, suc, ◌≡◌, refl, sym, ap, ◌∙◌, Option, none, some, List, [], ◌∷◌, bind-some, ◌>>=◌,
}
use mimic_generator.Common.Int.{ℤ, pos, negsuc}
use mimic_generator.Event.{Event}
use mimic_generator.EventQueue.Spec.{Fifo, pop, pop-none}
use mimic_generator.Os.{Os, Call, History, PollEvent, entries}
use mimic_generator.TestProgram.{
  accept_on, accept_events, server_round, watch_job, watch_jobs, handle_socket, handle_sockets,
  handler_round,
}
use mimic_generator.TestProgram.Threads.{State, waits, accepts, takes, polls, handles, Reach, later}

-- After a round a thread has no events left to handle.
abbrev served : Fifo × History → State → State
served (q, h) s = record s { eq = q; server = h; server_left = [] }

abbrev handled : Fifo × History → State → State
handled (q, h) s = record s { eq = q; handler = h; handler_left = [] }

-- The thread whose turn it is, with fuel for the second.
pub data Thread : Type 0 where
  server : Thread
  handler : (k : ℕ) → Thread

-- A round of a thread in a state of both.
abbrev pub round : Os → (server_efd handler_efd : ℤ) → Thread → State → Option State
round os server_efd handler_efd server s = do
  t ← server_round os server_efd s.eq s.server
  some (served t s)
round os server_efd handler_efd (handler k) s = do
  t ← handler_round os k handler_efd s.eq s.handler
  some (handled t s)

-- The events that the thread has yet to handle.
abbrev pub left : Thread → State → List PollEvent
left server s = s.server_left
left (handler k) s = s.handler_left

module _ (os : Os) (num_conns ip : ℕ) (server_efd handler_efd : ℤ) where
  abbrev Reached : State → Type 0
  Reached s = Reach os num_conns ip server_efd handler_efd s

  accept_events-Reach :
      (n i : ℕ) (events : ℕ → PollEvent) (s : State)
      → s.server_left ≡ entries events i n
      → Reached s
      → Reached (served (accept_events os n i events s.eq s.server) s)
  unfolding accept_events
  accept_events-Reach zero i events s at r =
      subst (λ es. Reached (record s { server_left = es })) at r
  accept_events-Reach (suc n) i events s at r =
      let (q, h) = accept_on os (events i) s.eq s.server in
      let rest = entries events (suc i) n in
      accept_events-Reach n (suc i) events (record s { eq = q; server = h; server_left = rest })
        refl (later r (accepts (events i) rest at refl))

  server_round-Reach :
      (s : State) (t : Fifo × History)
      → s.server_left ≡ []
      → Reached s
      → server_round os server_efd s.eq s.server ≡ some t
      → Reached (served t s)
  unfolding server_round
  server_round-Reach s t rest r e = by_count (os.result s.server wait) refl e
    where
      wait : Call
      wait = Call.epoll_wait server_efd (pos 5000)

      by_count :
          (c : ℤ)
          → os.result s.server wait ≡ c
          → (elim c as (λ _. Option (Fifo × History)) [
            | pos n ↦ some (accept_events os n 0 (os.polled s.server wait) s.eq (wait ∷ s.server))
            | negsuc n ↦ none
          ])
            ≡ some t
          → Reached (served t s)
      by_count (negsuc n) count e = absurd (cc)
      by_count (pos n) count e =
          subst (λ x. Reached (served x s)) (some-injective _ _ e)
            (accept_events-Reach n 0 (os.polled s.server wait)
              (record s {
                server = wait ∷ s.server;
                server_left = entries (os.polled s.server wait) 0 n;
              })
              refl (later r (waits n rest count refl)))

  -- The loop ends when the queue is empty.
  watch_jobs-empty :
      (k : ℕ) (q : Fifo) (h : History) (t : Fifo × History)
      → watch_jobs os k handler_efd q h ≡ some t
      → pop t.0 ≡ (t.0, none)
  unfolding watch_jobs
  watch_jobs-empty zero q h t e = absurd (cc)
  watch_jobs-empty (suc k) q h t e = by_job (pop q) refl (λ q' h'. watch_jobs-empty k q' h' t) e
    where
      by_job :
          (p : Fifo × Option Event)
          → pop q ≡ p
          → ((q' : Fifo) (h' : History)
              → watch_jobs os k handler_efd q' h' ≡ some t
              → pop t.0 ≡ (t.0, none))
          → (elim p.1 as (λ _. Option (Fifo × History)) [
            | none ↦ some (p.0, h)
            | some job ↦ watch_jobs os k handler_efd p.0 (watch_job os handler_efd job h)
          ])
            ≡ some t
          → pop t.0 ≡ (t.0, none)
      by_job (q', none) got ih e =
          let same : q' ≡ t.0 = ap (λ x. x.0) (some-injective _ _ e) in
          subst (λ x. pop x ≡ (x, none)) (pop-none q q' got ∙ same)
            (got ∙ ap (λ x. (x, none)) (sym (pop-none q q' got)))
      by_job (q', some job) got ih e = ih q' (watch_job os handler_efd job h) e

  watch_jobs-Reach :
      (k : ℕ) (s : State) (t : Fifo × History)
      → s.handler_left ≡ []
      → Reached s
      → watch_jobs os k handler_efd s.eq s.handler ≡ some t
      → Reached (handled t s)
  unfolding watch_jobs
  watch_jobs-Reach zero s t rest r e = absurd (cc)
  watch_jobs-Reach (suc k) s t rest r e = by_job (pop s.eq) refl (λ u. watch_jobs-Reach k u t) e
    where
      by_job :
          (p : Fifo × Option Event)
          → pop s.eq ≡ p
          → ((u : State)
              → u.handler_left ≡ []
              → Reached u
              → watch_jobs os k handler_efd u.eq u.handler ≡ some t
              → Reached (handled t u))
          → (elim p.1 as (λ _. Option (Fifo × History)) [
            | none ↦ some (p.0, s.handler)
            | some job ↦ watch_jobs os k handler_efd p.0 (watch_job os handler_efd job s.handler)
          ])
            ≡ some t
          → Reached (handled t s)
      by_job (q, none) got ih e =
          subst (λ x. Reached (handled x s))
            (ap (λ x. (x, s.handler)) (pop-none s.eq q got) ∙ some-injective _ _ e)
            (subst (λ es. Reached (record s { handler_left = es })) rest r)
      by_job (q, some job) got ih e =
          ih (record s { eq = q; handler = watch_job os handler_efd job s.handler }) rest
            (later r (takes q job rest got refl)) e

  handle_sockets-Reach :
      (k n i : ℕ) (events : ℕ → PollEvent) (s : State) (h : History)
      → s.handler_left ≡ entries events i n
      → Reached s
      → handle_sockets os k n i events s.handler ≡ some h
      → Reached (record s { handler = h; handler_left = [] })
  unfolding handle_sockets
  handle_sockets-Reach k zero i events s h at r e =
      subst (λ x. Reached (record s { handler = x; handler_left = [] })) (some-injective _ _ e)
        (subst (λ es. Reached (record s { handler_left = es })) at r)
  handle_sockets-Reach k (suc n) i events s h at r e =
      let (h₁, at₁, e₁) = bind-some (handle_socket os k (events i) s.handler) _ h e in
      let rest = entries events (suc i) n in
      handle_sockets-Reach k n (suc i) events (record s { handler = h₁; handler_left = rest }) h
        refl (later r (handles k (events i) rest h₁ at at₁ refl)) e₁

  handler_round-Reach :
      (k : ℕ) (s : State) (t : Fifo × History)
      → s.handler_left ≡ []
      → Reached s
      → handler_round os k handler_efd s.eq s.handler ≡ some t
      → Reached (handled t s)
  unfolding handler_round
  handler_round-Reach k s t rest r e =
      let (a, at, e₁) = bind-some (watch_jobs os k handler_efd s.eq s.handler) _ t e in
      by_count (handled a s) refl (watch_jobs-Reach k s a rest r at)
        (watch_jobs-empty k s.eq s.handler a at)
        (os.result a.1 (Call.epoll_wait handler_efd (pos 0))) refl e₁
    where
      by_count :
          (u : State)
          → u.handler_left ≡ []
          → Reached u
          → pop u.eq ≡ (u.eq, none)
          → (c : ℤ) → os.result u.handler (Call.epoll_wait handler_efd (pos 0)) ≡ c
          → (elim c as (λ _. Option (Fifo × History)) [
            | pos n ↦
                handle_sockets os k n 0
                  (os.polled u.handler (Call.epoll_wait handler_efd (pos 0)))
                  (Call.epoll_wait handler_efd (pos 0) ∷ u.handler)
                >>= (λ h. some (u.eq, h))
            | negsuc n ↦ none
          ])
            ≡ some t
          → Reached (handled t u)
      by_count u rest r none_left (negsuc n) count e = absurd (cc)
      by_count u rest r none_left (pos n) count e =
          let wait = Call.epoll_wait handler_efd (pos 0) in
          let polled = os.polled u.handler wait in
          let (h, at, e₁) = bind-some (handle_sockets os k n 0 polled (wait ∷ u.handler)) _ t e in
          subst (λ x. Reached (handled x u)) (some-injective _ _ e₁)
            (handle_sockets-Reach k n 0 polled
              (record u { handler = wait ∷ u.handler; handler_left = entries polled 0 n }) h refl
              (later r (polls n rest none_left count refl)) at)

  -- A round of either thread that returns, from a state that steps of the threads reach and in which
  -- the thread has no events left to handle, ends in one that they reach, with none left again: the
  -- thread has handled all events of its poll, each once and in their order.
  pub round-Reach :
      (turn : Thread) (s t : State)
      → left turn s ≡ []
      → Reach os num_conns ip server_efd handler_efd s
      → round os server_efd handler_efd turn s ≡ some t
      → (left turn t ≡ []) × Reach os num_conns ip server_efd handler_efd t
  round-Reach server s t rest r e =
      let (a, at, e₁) =
        bind-some (server_round os server_efd s.eq s.server) (λ x. some (served x s)) t e in
      subst (λ u. (u.server_left ≡ []) × Reached u) (some-injective _ _ e₁)
        (refl, server_round-Reach s a rest r at)
  round-Reach (handler k) s t rest r e =
      let (a, at, e₁) =
        bind-some (handler_round os k handler_efd s.eq s.handler) (λ x. some (handled x s)) t e in
      subst (λ u. (u.handler_left ≡ []) × Reached u) (some-injective _ _ e₁)
        (refl, handler_round-Reach k s a rest r at)
