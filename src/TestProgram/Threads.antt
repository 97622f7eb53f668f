-- ===== src/TestProgram/Threads.antt =====
-- src/test.cpp: the thread that accepts clients and the thread that reads from them, with the queue of
-- accepted sockets between them. A step is one access to the queue, with what the thread does by itself
-- until its next one, or a part of that.
pub mod Accepted
use mathlib.Core.List.{map-append, append_assoc}
use mathlib.Core.Option.{some-injective}
use mimic_generator.Common.{
  ℕ, zero, suc, ◌+◌, ◌≡◌, refl, sym, ap, ◌∙◌, not, ◌&&◌, ◌||◌, Bool, true, false, inl, inr, none,
  some, List, [], ◌∷◌, ◌++◌, map, Bool-cases, bind-some, if◌then◌else◌, ◌==◌,
}
use Prim.Native.Nat.{bit_and}
use mimic_generator.Common.Int.{ℤ, pos, negsuc, ◌==ℤ◌, ◌+ℤ◌, ltb_ℤ, to_int}
use mimic_generator.Event.{Event}
use mimic_generator.EventQueue.Spec.{Fifo, push, pop, pop-some}
use mimic_generator.Os.{Os, Call, History, PollEvent, or_nonblock, entries}
use mimic_generator.Connections.{af_inet, swap16, to_u16}
use mimic_generator.TestProgram.{
  start_port, watch_in, has_error, listen_at, listen_all, server_setup, accept_on, read_from,
  read_from_socket, handler_setup, watch_job, handle_socket,
}

-- What the two threads have called, the events of its last poll that each has yet to handle, and the
-- queue between them.
pub record State : Type 0 where
  pub eq : Fifo
  pub server : History
  pub server_left : List PollEvent
  pub handler : History
  pub handler_left : List PollEvent

-- The first thread waits once it has handled all events that epoll has reported, and handles them one
-- after another. The second one takes jobs until there is none, and polls then.
pub data Step (os : Os) (server_efd handler_efd : ℤ) (s t : State) : Type 0 where
  waits :
      (n : ℕ)
      → s.server_left ≡ []
      → os.result s.server (Call.epoll_wait server_efd (pos 5000)) ≡ pos n
      → t ≡ record s {
        server = Call.epoll_wait server_efd (pos 5000) ∷ s.server;
        server_left = entries (os.polled s.server (Call.epoll_wait server_efd (pos 5000))) 0 n;
      }
      → Step os server_efd handler_efd s t
  accepts :
      (e : PollEvent) (left : List PollEvent)
      → s.server_left ≡ e ∷ left
      → t ≡ record s {
        eq = (accept_on os e s.eq s.server).0;
        server = (accept_on os e s.eq s.server).1;
        server_left = left;
      }
      → Step os server_efd handler_efd s t
  takes :
      (q : Fifo) (job : Event)
      → s.handler_left ≡ []
      → pop s.eq ≡ (q, some job)
      → t ≡ record s { eq = q; handler = watch_job os handler_efd job s.handler }
      → Step os server_efd handler_efd s t
  polls :
      (n : ℕ)
      → s.handler_left ≡ []
      → pop s.eq ≡ (s.eq, none)
      → os.result s.handler (Call.epoll_wait handler_efd (pos 0)) ≡ pos n
      → t ≡ record s {
        handler = Call.epoll_wait handler_efd (pos 0) ∷ s.handler;
        handler_left = entries (os.polled s.handler (Call.epoll_wait handler_efd (pos 0))) 0 n;
      }
      → Step os server_efd handler_efd s t
  handles :
      (k : ℕ) (e : PollEvent) (left : List PollEvent) (h : History)
      → s.handler_left ≡ e ∷ left
      → handle_socket os k e s.handler ≡ some h
      → t ≡ record s { handler = h; handler_left = left }
      → Step os server_efd handler_efd s t

-- Both threads have set up, and the queue is empty.
pub data Reach (os : Os) (num_conns ip : ℕ) (server_efd handler_efd : ℤ) : State → Type 0 where
  start :
      (sockets : List ℤ) (server handler : History)
      → server_setup os num_conns ip [] ≡ some (server_efd, sockets, server)
      → handler_setup os [] ≡ some (handler_efd, handler)
      → Reach os num_conns ip server_efd handler_efd (record {
        eq = [];
        server = server;
        server_left = [];
        handler = handler;
        handler_left = [];
      })
  later :
      {s t : State}
      → Reach os num_conns ip server_efd handler_efd s
      → Step os server_efd handler_efd s t
      → Reach os num_conns ip server_efd handler_efd t
