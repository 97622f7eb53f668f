-- ===== src/FileWorker/Connecting.antt =====
-- src/fileWorker.cpp, `startup`: what it keeps, if the single steps keep it.
use mathlib.Core.Path.{subst}
use mathlib.Core.Option.{some-injective}
use mimic_generator.Common.{
  ℕ, ◌≡◌, inl, inr, Bool, true, ◌||◌, Option, none, some, List, [], ◌∷◌, get_elem?, ◌>>=◌,
  bind-some, Bool-cases,
}
use mimic_generator.Common.Int.{ℤ, negsuc}
use mimic_generator.Common.Maps.{Text, insert, int_eq}
use mimic_generator.Event.{Event}
use mimic_generator.EventHeap.{compare_events}
use mimic_generator.EventHeap
use mimic_generator.EventHeap.Contract.{JobHeap}
use mimic_generator.Connections.{Inet, ConnectionPair, connection_pair}
use mimic_generator.FileWorker.{trim, Records, load_file}
use mimic_generator.FileWorker.Events.{Numbers, FileWorker, is_my_ip, event_of, add_row_event}
use mimic_generator.FileWorker.Keeps.{load_events-keeps}
use mimic_generator.FileWorker.Startup.{
  with_ips, start_event, load_pair, load_connection, load_connections, startup_up_to,
}

-- What `startup` does for a connection of one of the addresses.
abbrev pub with_connection :
    {J : JobHeap compare_events} → ℤ → ConnectionPair → Event → FileWorker J → FileWorker J
with_connection {J} id cp e w = record w {
  my_conn_ids = id ∷ w.my_conn_ids;
  conn_id_to_connection_pair_map = insert id cp w.conn_id_to_connection_pair_map;
  short_term_heap = EventHeap.add_event J w.short_term_heap e;
}

-- What `startup` begins with.
abbrev pub without_connections :
    {J : JobHeap compare_events} → List Text → FileWorker J → FileWorker J
without_connections ips w = record w {
  my_ips = ips;
  my_conn_ids = [];
  conn_id_to_connection_pair_map = [];
}

module _ (numbers : Numbers) (inet : Inet) (stale_src stale_dst : ℕ) {J : JobHeap compare_events}
    (P : FileWorker J → Type 0)
    (same : (w w' : FileWorker J)
      → w'.short_term_heap ≡ w.short_term_heap
      → w'.my_ips ≡ w.my_ips
      → w'.my_conn_ids ≡ w.my_conn_ids
      → w'.conn_id_to_connection_pair_map ≡ w.conn_id_to_connection_pair_map
      → w'.out_events ≡ w.out_events
      → P w
      → P w')
    (row_event : (row : List Text) (w : FileWorker J) (e : Event) (ip : Text)
      → event_of numbers row w ≡ some e
      → get_elem? row 3 ≡ some ip
      → is_my_ip w ip ≡ true
      → P w
      → P (add_row_event e w))
    (connected : (id : ℤ) (cp : ConnectionPair) (at : ℤ) (is_client : Bool) (w : FileWorker J)
      → P w
      → P (with_connection id cp (start_event id at is_client) w)) where
  load_pair-keeps :
      (id : ℤ) (row : List Text) (w w' : FileWorker J)
      → load_pair numbers inet stale_src stale_dst id row w ≡ some w'
      → P w
      → P w'
  unfolding load_pair
  load_pair-keeps id row w w' e k =
      let (src, a₁, e₁) = bind-some (get_elem? row 3) _ w' e in
      let (sport, a₂, e₂) = bind-some (get_elem? row 4 >>= numbers.stoi) _ w' e₁ in
      let (dst, a₃, e₃) = bind-some (get_elem? row 6) _ w' e₂ in
      let (dport, a₄, e₄) = bind-some (get_elem? row 7 >>= numbers.stoi) _ w' e₃ in
      let cp = connection_pair inet stale_src stale_dst (trim src) sport (trim dst) dport in
      elim (Bool-cases (is_my_ip w (trim src) || is_my_ip w (trim dst))) [
        | inl mine ↦
            let (at, a₅, e₅) = bind-some (get_elem? row 1 >>= numbers.stol) _ w' (rw mine at e₄) in
            let is_client = is_my_ip w (trim src) in
            subst P (some-injective (with_connection id cp (start_event id at is_client) w) w' e₅)
              (connected id cp at is_client w k)
        | inr foreign ↦ subst P (some-injective w w' (rw foreign at e₄)) k
      ]

  load_connection-keeps :
      (row : List Text) (w w' : FileWorker J)
      → load_connection numbers inet stale_src stale_dst row w ≡ some w'
      → P w
      → P w'
  unfolding load_connection
  load_connection-keeps row w w' e k =
      let (field, a₁, e₁) = bind-some (get_elem? row 2) _ w' e in by_number (numbers.stol field) e₁
    where
      by_number :
          (o : Option ℤ)
          → (elim o [
            | none ↦ some w
            | some id ↦ load_pair numbers inet stale_src stale_dst id row w
          ])
            ≡ some w'
          → P w'
      by_number none e = subst P (some-injective w w' e) k
      by_number (some id) e = load_pair-keeps id row w w' e k

  load_connections-keeps :
      (rows : Records) (w w' : FileWorker J)
      → load_connections numbers inet stale_src stale_dst rows w ≡ some w'
      → P w
      → P w'
  unfolding load_connections
  load_connections-keeps [] w w' e k = subst P (some-injective w w' e) k
  load_connections-keeps (row ∷ rows) w w' e k =
      let (v, a, e') = bind-some (load_connection numbers inet stale_src stale_dst row w) _ w' e in
      load_connections-keeps rows v w' e' (load_connection-keeps row w v a k)

  -- `startup` keeps a property that each connection and each event of a row keeps, if it holds where
  -- the addresses are known and no connection is.
  pub startup-keeps :
      (to_get k : ℕ) (ip_list connections : Text) (w w' : FileWorker J)
      → startup_up_to numbers inet stale_src stale_dst to_get k ip_list connections w ≡ some w'
      → ((ips : List Text) → P (without_connections ips w))
      → P w'
  unfolding startup_up_to
  startup-keeps to_get k ip_list connections w w' e first =
      let (ips, a₁, e₁) = bind-some (load_file ip_list 1 (negsuc 0)) _ w' e in
      let (conns, a₂, e₂) = bind-some (load_file connections 8 (negsuc 0)) _ w' e₁ in
      let w₀ = without_connections (with_ips ips.0 []) w in
      let (w₁, a₃, e₃) =
        bind-some (load_connections numbers inet stale_src stale_dst conns.0 w₀) _ w' e₂ in
      load_events-keeps numbers P same row_event to_get k w₁ w' e₃
        (load_connections-keeps conns.0 w₀ w₁ a₃ (first (with_ips ips.0 [])))
