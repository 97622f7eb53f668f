-- ===== src/Replay/Boot.antt =====
-- src/test.cpp, `main`, from the making of the file thread's queue on: what the two threads start with.
-- The constructors and the startup functions are those of src/fileWorker.cpp and src/eventHandler.cpp.
use mathlib.Core.Path.{subst}
use mathlib.Core.Option.{some-injective}
use mimic_generator.Common.{ℕ, ◌≡◌, refl, ◌∙◌, Bool, true, Option, some, List, [], bind-some, ◌>>=◌}
use mimic_generator.Common.Int.{ℤ, pos, negsuc, ◌≤ℤ◌}
use mimic_generator.Common.Maps.{Text}
use mimic_generator.EventHeap.{compare_events}
use mimic_generator.EventHeap.Contract.{JobHeap}
use mimic_generator.EventNotifier.{EventNotifier}
use mimic_generator.Connections.{Inet}
use mimic_generator.PollHandler.{PollHandler}
use mimic_generator.EventHandler.{Handler, new_handler}
use mimic_generator.EventHandler
use mimic_generator.FileWorker.Events.{Numbers, FileWorker, new_file_worker}
use mimic_generator.FileWorker.Startup.{startup_up_to}
use mimic_generator.FileWorker.Connecting.{startup-keeps}
use mimic_generator.FileWorker.Known.{IsKnown, startup-IsKnown}
use mimic_generator.Replay.{State, enters, Starts}

-- The state that the two threads start in: nothing has been queued or taken, the handler has the
-- map of connections of the file thread, and each of its connections has an event that starts it.
pub record Booted {J : JobHeap compare_events} (s : State J) : Type 0 where
  pub starts : Starts s
  pub nothing_queued : s.worker.out_events ≡ []
  pub same_map : s.handler.conn_id_to_connection_map ≡ s.worker.conn_id_to_connection_pair_map
  pub known : IsKnown s.worker

module _ (inet : Inet) (numbers : Numbers) (stale_src stale_dst : ℕ)
    {J : JobHeap compare_events} where
  -- The file thread maps its files, as the constructor does where it is not told otherwise. The texts
  -- of the files are arguments, and so are what `loadMoreFileEvents` is, the handler's
  -- PollHandler and the clock. `to_get` is the number of events that `startup` loads.
  unfoldable pub boot :
      (to_get k : ℕ)
      → (ip_list connections : Text) (events : List Text) → (load_more : Bool) → EventNotifier
      → PollHandler
      → (now : ℤ) → Option (State J)
  boot to_get k ip_list connections events load_more notifier p now = do
    w ←
        startup_up_to numbers inet stale_src stale_dst to_get k ip_list connections
          (new_file_worker J [] events true)
    some (record {
      worker = w;
      handler =
          EventHandler.startup inet
            (new_handler J load_more notifier [] [] w.conn_id_to_connection_pair_map);
      poll_handler = p;
      next_event_time = negsuc 0;
      now = now;
      place = enters;
      got = [];
    })

  startup-out :
      (to_get k : ℕ) (ip_list connections : Text) (w w' : FileWorker J)
      → startup_up_to numbers inet stale_src stale_dst to_get k ip_list connections w ≡ some w'
      → w'.out_events ≡ w.out_events
  startup-out to_get k ip_list connections w w' e =
      startup-keeps numbers inet stale_src stale_dst (λ v. v.out_events ≡ w.out_events)
        (λ v v' heap ips ids conns out at. out ∙ at) (λ row v x ip a b c at. at)
        (λ id cp at is_client v same. same) to_get k ip_list connections w w' e (λ ips. refl)

  -- If `main` gets to the start of the two threads, then nothing has been queued or taken, the
  -- handler has the map of connections of the file thread, the identifiers of the file thread's
  -- connections are those of that map, and its heap has an event that starts each of them.
  pub boot-Booted :
      (to_get k : ℕ) (ip_list connections : Text) (events : List Text) (load_more : Bool)
      (notifier : EventNotifier) (p : PollHandler) (now : ℤ) (s : State J)
      → pos 0 ≤ℤ now
      → boot to_get k ip_list connections events load_more notifier p now ≡ some s
      → Booted s
  unfolding boot EventHandler.startup new_handler new_file_worker
  boot-Booted to_get k ip_list connections events load_more notifier p now s clock e =
      let w₀ = new_file_worker J [] events true in
      let (w, at, e₁) =
        bind-some (startup_up_to numbers inet stale_src stale_dst to_get k ip_list connections w₀) _
          s e in
      let nothing : w.out_events ≡ [] = startup-out to_get k ip_list connections w₀ w at in
      subst Booted (some-injective _ _ e₁) (record {
        starts = record {
          nothing_added = nothing;
          nothing_got = refl;
          place = refl;
          clock = clock;
        };
        nothing_queued = nothing;
        same_map = refl;
        known =
            startup-IsKnown numbers inet stale_src stale_dst to_get k ip_list connections w₀ w at;
      })
