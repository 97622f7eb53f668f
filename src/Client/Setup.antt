-- ===== src/Client/Setup.antt =====
-- src/basicClient.cpp, `main`: the connections that the client opens, and their epoll instances.
use mimic_generator.Common.{
  ℕ, zero, suc, ◌+◌, ◌≤◌, ◌<◌, ◌≡◌, refl, sym, ap, ◌∙◌, false, none, some, List, [], ◌∷◌, arith,
  if◌then◌else◌,
}
use mimic_generator.Common.Int.{ℤ, negsuc, ◌==ℤ◌}
use mimic_generator.Os.{Os, SockAddr, Call, History, or_nonblock}
use mimic_generator.Connections.{af_inet, swap16}
use mimic_generator.Client.{
  start_port, watch_out, ports, set_non_blocking, create_connect, init, init_sockets, init_threads,
}

-- The address that is connected to.
abbrev pub server : (ip port : ℕ) → SockAddr
server ip port = record { family = af_inet; addr = ip; port = swap16 port }

module _ (os : Os) where
  -- No call of `connect` fails.
  abbrev pub Connects : Type 0
  Connects =
      (h : History) (fd : ℤ) (a : SockAddr) → (os.result h (Call.connect fd a) ==ℤ negsuc 0) ≡ false

  -- The calls that one connection takes.
  abbrev pub opened : (ip port : ℕ) (efd : ℤ) → History → History
  opened ip port efd h =
      let s = os.result h Call.socket in
      let h₁ = Call.connect s (server ip port) ∷ Call.socket ∷ h in
      let flags = os.result h₁ (Call.fcntl_getfl s) in
      Call.epoll_add efd s watch_out
      ∷ Call.fcntl_setfl s (or_nonblock flags)
      ∷ Call.fcntl_getfl s
      ∷ h₁

  pub init-opened :
      (ip port : ℕ) (efd : ℤ) (h : History)
      → init os ip port efd h ≡ (
          let s = os.result h Call.socket in
          if os.result (Call.socket ∷ h) (Call.connect s (server ip port)) ==ℤ negsuc 0
          then none
          else some (opened ip port efd h))
  unfolding init create_connect set_non_blocking
  init-opened ip port efd h = ground arith

-- The ports that are connected to, the latest first.
abbrev pub dialled : History → List ℕ
dialled [] = []
dialled (Call.connect fd a ∷ h) = swap16 a.port ∷ dialled h
dialled (_ ∷ h) = dialled h

-- The epoll instances that descriptors are added to, the latest first.
abbrev pub added_to : History → List ℤ
added_to [] = []
added_to (Call.epoll_add efd fd events ∷ h) = efd ∷ added_to h
added_to (_ ∷ h) = added_to h

-- The `n` numbers from `p` on, the greatest first, before `ps`.
abbrev pub counted_up : (n p : ℕ) → List ℕ → List ℕ
counted_up zero p ps = ps
counted_up (suc n) p ps = counted_up n (suc p) (p ∷ ps)

abbrev pub times : ℕ → ℤ → List ℤ → List ℤ
times zero efd efds = efds
times (suc n) efd efds = times n efd (efd ∷ efds)

-- Each epoll instance as often as a thread has sockets.
abbrev pub shared : (efds : List ℤ) → (per_thread : ℕ) → List ℤ → List ℤ
shared [] m acc = acc
shared (efd ∷ efds) m acc = shared efds m (times m efd acc)

abbrev pub socket_count : (efds : List ℤ) → (per_thread : ℕ) → ℕ
socket_count [] m = 0
socket_count (efd ∷ efds) m = m + socket_count efds m

swap16_twice : (p : ℕ) → p < 65536 → swap16 (swap16 p) ≡ p
swap16_twice p lt = omega arith

counted_up-add :
    (n k p : ℕ) (ps : List ℕ) → counted_up k (n + p) (counted_up n p ps) ≡ counted_up (n + k) p ps
counted_up-add zero k p ps =
    let e : 0 + p ≡ p = omega arith in let e' : 0 + k ≡ k = omega arith in rw (e, e') refl
counted_up-add (suc n) k p ps =
    let e : suc n + p ≡ n + suc p = omega arith in
    let e' : suc n + k ≡ suc (n + k) = omega arith in
    rw (e, e') (counted_up-add n k (suc p) (p ∷ ps))

-- `n` connections have been opened, from the port `start_port + c` on.
pub record Opened (n c c' : ℕ) (adds : List ℤ) (h h' : History) : Type 0 where
  pub next : c' ≡ n + c
  pub ports_dialled : dialled h' ≡ counted_up n (start_port + c) (dialled h)
  pub instances : added_to h' ≡ adds

module _ (os : Os) (connects : Connects os) where
  init_sockets-Opened :
      (n ip : ℕ) (efd : ℤ) (c : ℕ) (h : History)
      → n + c ≤ 1024
      → (c' : ℕ) × (h' : History) × (init_sockets os n ip efd c h ≡ some (c', h'))
        × Opened n c c' (times n efd (added_to h)) h h'
  unfolding init_sockets
  init_sockets-Opened zero ip efd c h fits =
      (c, h, refl, record { next = omega arith; ports_dialled = refl; instances = refl })
  init_sockets-Opened (suc n) ip efd c h fits =
      let h₁ = opened os ip (start_port + c) efd h in
      let (c', h', run, o) = init_sockets-Opened n ip efd (suc c) h₁ (omega arith) in
      let next_port : counted_up n (start_port + suc c) (dialled h₁)
          ≡ counted_up n (suc (start_port + c)) ((start_port + c) ∷ dialled h) =
        rw (swap16_twice (start_port + c) (omega arith))
          (ap (λ p. counted_up n p ((start_port + c) ∷ dialled h)) (omega arith)) in
      let port : ports c ≡ some (start_port + c) = ground arith in
      (
        c',
        h',
        rw (port) (
            rw (init-opened os ip (start_port + c) efd h) (
              rw (connects (Call.socket ∷ h) (os.result h Call.socket) (server ip (start_port + c)))
                run)),
        record {
          next = omega (arith, o.next);
          ports_dialled = o.ports_dialled ∙ next_port;
          instances = o.instances;
        },
      )

  -- If no call of `connect` fails and the array of ports has room for all sockets, then the set-up
  -- returns. It has connected to the ports from `start_port + c` on, in their order, to each once, and
  -- has added to the epoll instance of each thread as many sockets as the thread has.
  pub init_threads-Opened :
      (efds : List ℤ) (m ip c : ℕ) (h : History)
      → socket_count efds m + c ≤ 1024
      → (c' : ℕ) × (h' : History) × (init_threads os efds m ip c h ≡ some (c', h'))
        × Opened (socket_count efds m) c c' (shared efds m (added_to h)) h h'
  unfolding init_threads
  init_threads-Opened [] m ip c h fits =
      (c, h, refl, record { next = omega arith; ports_dialled = refl; instances = refl })
  init_threads-Opened (efd ∷ efds) m ip c h fits =
      let count = socket_count efds m in
      let (c₁, h₁, run, o) = init_sockets-Opened m ip efd c h (omega arith) in
      let (c', h', run', o') = init_threads-Opened efds m ip c₁ h₁ (omega (arith, o.next)) in
      (
        c',
        h',
        rw run run',
        record {
          next = omega (arith, o.next, o'.next);
          ports_dialled =
              o'.ports_dialled
              ∙ ap (λ p. counted_up count p (dialled h₁)) (omega (arith, o.next))
              ∙ ap (counted_up count (m + (start_port + c))) o.ports_dialled
              ∙ counted_up-add m count (start_port + c) (dialled h);
          instances = rw (sym o.instances) o'.instances;
        },
      )
