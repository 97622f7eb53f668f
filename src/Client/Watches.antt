-- ===== src/Client/Watches.antt =====
-- src/basicClient.cpp: what the client watches its sockets for.
use mimic_generator.Common.{
  ℕ, zero, suc, ◌≡◌, Bool, true, false, refl, sym, ◌∙◌, ap, some, none, Option, List, [], ◌∷◌, All,
  arith, if◌then◌else◌,
}
use mathlib.Core.Option.{some-injective}
use mathlib.Core.Path.{subst}
use mimic_generator.Common.Int.{ℤ, pos, negsuc, ◌==ℤ◌}
use mimic_generator.Event.{Event, new_event}
use mimic_generator.EventQueue.Spec.{Fifo, push, pop}
use mimic_generator.Os.{Os, Call, History, PollEvent}
use mimic_generator.Client.{
  watch_out, ports, Worker, new_worker, init, init_sockets, init_threads, do_send, do_recv,
  do_process, check_job, handle_event, handle_events, event_count, worker_round, worker_rounds,
}
use mimic_generator.Client.Setup.{server, opened, init-opened}
use mimic_generator.Common.{bind-some}

-- A call that has epoll watch a descriptor has it watch for writing only, edge-triggered.
abbrev pub IsWriteWatch : Call → Type 0
IsWriteWatch (Call.epoll_add epfd fd events) = events ≡ watch_out
IsWriteWatch (Call.epoll_mod epfd fd events) = events ≡ watch_out
IsWriteWatch _ = Unit

abbrev pub WatchesWrites : History → Type 0
WatchesWrites = All IsWriteWatch

module _ (os : Os) (efd : ℤ) where
  do_process-WatchesWrites :
      (e : PollEvent) (w : Worker)
      → WatchesWrites w.calls
      → WatchesWrites (do_process os efd e w).calls
  unfolding do_process do_send do_recv
  do_process-WatchesWrites e w c = ground arith

  check_job-calls : (r : Fifo × Option Event) (w : Worker) → (check_job r w).calls ≡ w.calls
  unfolding check_job
  check_job-calls (q, none) w = refl
  check_job-calls (q, some job) w = refl

  handle_events-WatchesWrites :
      (n i : ℕ) (events : ℕ → PollEvent) (w : Worker)
      → WatchesWrites w.calls
      → WatchesWrites (handle_events os efd n i events w).calls
  unfolding handle_events handle_event
  handle_events-WatchesWrites zero i events w c = c
  handle_events-WatchesWrites (suc n) i events w c =
      let w' = record w { eq = push w.eq (record new_event { ms_from_start = pos i }) } in
      let done = do_process os efd (events i) w' in
      handle_events-WatchesWrites n (suc i) events (check_job (pop done.eq) done) (
        subst WatchesWrites (sym (check_job-calls (pop done.eq) done))
          (do_process-WatchesWrites (events i) w' c))

  worker_rounds-Keeps :
      (k : ℕ) (w : Worker) → WatchesWrites w.calls → WatchesWrites (worker_rounds os efd k w).calls
  unfolding worker_rounds worker_round
  worker_rounds-Keeps zero w c = c
  worker_rounds-Keeps (suc k) w c =
      let wait = Call.epoll_wait efd (negsuc 0) in
      worker_rounds-Keeps k (worker_round os efd w) (
        handle_events-WatchesWrites (event_count (os.result w.calls wait)) 0
          (os.polled w.calls wait) (record w { calls = wait ∷ w.calls }) (tt, c))

module _ (os : Os) where
  init-WatchesWrites :
      (ip port : ℕ) (efd : ℤ) (h h' : History)
      → init os ip port efd h ≡ some h'
      → WatchesWrites h
      → WatchesWrites h'
  init-WatchesWrites ip port efd h h' e watches =
      let s = os.result h Call.socket in
      kept (os.result (Call.socket ∷ h) (Call.connect s (server ip port)) ==ℤ negsuc 0)
        (sym (init-opened os ip port efd h) ∙ e)
    where
      kept :
          (failed : Bool)
          → (if failed then none else some (opened os ip port efd h)) ≡ some h'
          → WatchesWrites h'
      kept true e = absurd (cc)
      kept false e =
          subst WatchesWrites (some-injective (opened os ip port efd h) h' e)
            (refl, (tt, (tt, (tt, (tt, watches)))))

  init_sockets-WatchesWrites :
      (n ip : ℕ) (efd : ℤ) (c : ℕ) (h : History) (c' : ℕ) (h' : History)
      → init_sockets os n ip efd c h ≡ some (c', h')
      → WatchesWrites h
      → WatchesWrites h'
  unfolding init_sockets
  init_sockets-WatchesWrites zero ip efd c h c' h' e watches =
      subst WatchesWrites (ap (λ q. q.1) (some-injective (c, h) (c', h') e)) watches
  init_sockets-WatchesWrites (suc n) ip efd c h c' h' e watches =
      let (port, at, e₁) = bind-some (ports c) _ (c', h') e in
      let (h₁, made, e₂) = bind-some (init os ip port efd h) _ (c', h') e₁ in
      init_sockets-WatchesWrites n ip efd (suc c) h₁ c' h' e₂
        (init-WatchesWrites ip port efd h h₁ made watches)

  init_threads-WatchesWrites :
      (efds : List ℤ) (m ip c : ℕ) (h : History) (c' : ℕ) (h' : History)
      → init_threads os efds m ip c h ≡ some (c', h')
      → WatchesWrites h
      → WatchesWrites h'
  unfolding init_threads
  init_threads-WatchesWrites [] m ip c h c' h' e watches =
      subst WatchesWrites (ap (λ q. q.1) (some-injective (c, h) (c', h') e)) watches
  init_threads-WatchesWrites (efd ∷ efds) m ip c h c' h' e watches =
      let ((c₁, h₁), made, e₁) = bind-some (init_sockets os m ip efd c h) _ (c', h') e in
      init_threads-WatchesWrites efds m ip c₁ h₁ c' h' e₁
        (init_sockets-WatchesWrites m ip efd c h c₁ h₁ made watches)

  -- Whatever the system calls answer: if the set-up returns, then neither it nor any number of rounds
  -- of a thread after it has epoll watch a descriptor for anything but writing.
  pub worker_rounds-WatchesWrites :
      (efds : List ℤ) (m ip c c' : ℕ) (h : History)
      → init_threads os efds m ip c [] ≡ some (c', h)
      → (efd : ℤ) (k : ℕ)
      → WatchesWrites (worker_rounds os efd k (record new_worker { calls = h })).calls
  worker_rounds-WatchesWrites efds m ip c c' h made efd k =
      worker_rounds-Keeps os efd k (record new_worker { calls = h })
        (init_threads-WatchesWrites efds m ip c [] c' h made tt)
