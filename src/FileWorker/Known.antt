-- ===== src/FileWorker/Known.antt =====
-- src/fileWorker.cpp, `startup`: the connections that are known after it.
use mathlib.Core.List.{Mem, Perm, mem-cons_self, mem-cons_of_mem}
use mathlib.Core.List.Perm
use mimic_generator.Common.{
  ℕ, ◌≡◌, refl, sym, ap, ◌∙◌, inl, inr, Bool, true, false, Option, none, some, List, [], ◌∷◌,
  Bool-cases,
}
use mimic_generator.Common.Int.{ℤ, ◌==ℤ◌, ==ℤ_iff}
use mimic_generator.Common.Maps.{Text, find, find-insert, int_eq}
use mimic_generator.Event.{Event, EventType, connect, srv_start}
use mimic_generator.EventHeap.{compare_events}
use mimic_generator.EventHeap
use mimic_generator.EventHeap.Contract.{JobHeap}
use mimic_generator.Connections.{Inet, ConnectionPair}
use mimic_generator.FileWorker.Events.{Numbers, FileWorker, is_id_in, add_row_event}
use mimic_generator.FileWorker.Connecting.{with_connection, without_connections, startup-keeps}
use mimic_generator.FileWorker.Startup.{start_event, startup_up_to}

abbrev pub is_found : Option ConnectionPair → Bool
is_found none = false
is_found (some p) = true

-- A CONNECT or a SRV_START.
abbrev pub is_start : EventType → Bool
is_start connect = true
is_start srv_start = true
is_start _ = false

-- One of the events starts the connection.
abbrev pub Starts : ℤ → List Event → Type 0
Starts c es = (e : Event) × Mem e es × (e.conn_id ≡ c) × (is_start e.type ≡ true)

Starts-Perm :
    (c : ℤ) (e : Event) (es fs : List Event) → Perm fs (e ∷ es) → Starts c es → Starts c fs
Starts-Perm c e es fs p (x, m, id, starts) =
    (x, (Perm.mem_iff p).1 (mem-cons_of_mem e m), id, starts)

module _ {J : JobHeap compare_events} where
  -- The identifiers are those of the map, and an event of the heap starts each.
  pub record IsKnown (w : FileWorker J) : Type 0 where
    pub listed :
        (c : ℤ) → is_id_in c w.my_conn_ids ≡ is_found (find c w.conn_id_to_connection_pair_map)
    pub started :
        (c : ℤ) → is_id_in c w.my_conn_ids ≡ true → Starts c (J.contents w.short_term_heap)

  same-IsKnown :
      (w w' : FileWorker J)
      → w'.short_term_heap ≡ w.short_term_heap
      → w'.my_conn_ids ≡ w.my_conn_ids
      → w'.conn_id_to_connection_pair_map ≡ w.conn_id_to_connection_pair_map
      → IsKnown w
      → IsKnown w'
  same-IsKnown w w' heap ids conns k = record {
    listed = λ c. rw (ids, conns) (k.listed c);
    started = λ c e. rw heap (k.started c (ap (is_id_in c) (sym ids) ∙ e));
  }

  none-IsKnown :
      (w : FileWorker J) → w.my_conn_ids ≡ [] → w.conn_id_to_connection_pair_map ≡ [] → IsKnown w
  unfolding find
  none-IsKnown w ids conns = record {
    listed = λ c. rw (ids, conns) refl;
    started = λ c e. absurd (let e' = ap (is_id_in c) (sym ids) ∙ e in cc);
  }

  add_row_event-IsKnown : (e : Event) (w : FileWorker J) → IsKnown w → IsKnown (add_row_event e w)
  unfolding EventHeap.add_event
  add_row_event-IsKnown e w k = record {
    listed = k.listed;
    started = λ c mine.
        Starts-Perm c e (J.contents w.short_term_heap) _ (J.contents-push w.short_term_heap e)
          (k.started c mine);
  }

  with_connection-IsKnown :
      (id : ℤ) (cp : ConnectionPair) (e : Event) (w : FileWorker J)
      → e.conn_id ≡ id
      → is_start e.type ≡ true
      → IsKnown w
      → IsKnown (with_connection id cp e w)
  unfolding EventHeap.add_event
  with_connection-IsKnown id cp e w at starts k = record {
    listed = λ c. elim (Bool-cases (id ==ℤ c)) [
      | inl same ↦ rw (find-insert id c cp w.conn_id_to_connection_pair_map, same) refl
      | inr other ↦ rw (find-insert id c cp w.conn_id_to_connection_pair_map, other) (k.listed c)
    ];
    started = λ c mine. elim (Bool-cases (id ==ℤ c)) [
      | inl same ↦ (
        e,
        (Perm.mem_iff (J.contents-push w.short_term_heap e)).1 mem-cons_self,
        at ∙ ==ℤ_iff id c same,
        starts,
      )
      | inr other ↦
          Starts-Perm c e (J.contents w.short_term_heap) _ (J.contents-push w.short_term_heap e)
            (k.started c (rw other at mine))
    ];
  }

start_event-is_start :
    (id at : ℤ) (is_client : Bool) → is_start (start_event id at is_client).type ≡ true
start_event-is_start id at true = refl
start_event-is_start id at false = refl

module _ (numbers : Numbers) (inet : Inet) (stale_src stale_dst : ℕ)
    {J : JobHeap compare_events} where
  -- If `startup` returns, whatever the number of events that it loads, then the identifiers of the
  -- worker's connections are exactly those of the map that it hands to the EventHandler, and for each
  -- of them the heap holds an event that starts it, a CONNECT or a SRV_START.
  pub startup-IsKnown :
      (to_get k : ℕ) (ip_list connections : Text) (w w' : FileWorker J)
      → startup_up_to numbers inet stale_src stale_dst to_get k ip_list connections w ≡ some w'
      → IsKnown w'
  unfolding startup_up_to
  startup-IsKnown to_get k ip_list connections w w' e =
      startup-keeps numbers inet stale_src stale_dst IsKnown
        (λ v v' heap ips ids conns out. same-IsKnown v v' heap ids conns)
        (λ row v x ip a b c. add_row_event-IsKnown x v)
        (λ id cp at is_client v.
          with_connection-IsKnown id cp (start_event id at is_client) v refl
            (start_event-is_start id at is_client))
        to_get k ip_list connections w w' e
        (λ ips. none-IsKnown (without_connections ips w) refl refl)
