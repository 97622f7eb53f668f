-- ===== src/FileWorker/Keeps.antt =====
-- src/fileWorker.cpp, `loadEvents`: what it keeps, if the single steps keep it.

use mathlib.Core.Path.{subst}
use mathlib.Core.Option.{some-injective}
use mimic_generator.Common.{
  ℕ, zero, suc, ◌≡◌, refl, Bool, true, false, ◌||◌, some, List, [], ◌∷◌, if◌then◌else◌, ◌==◌, ltb,
  leb, length, get_elem?, ◌>>=◌, Bool-cases, inl, inr,
}
use mimic_generator.Common.Int.{ℤ, pos, ◌-ℤ◌, scale}
use mimic_generator.Common.Maps.{Text}
use mimic_generator.Event.{Event}
use mimic_generator.EventHeap.{compare_events}
use mimic_generator.EventHeap.Contract.{JobHeap}
use mimic_generator.FileWorker.{Records, load_file, load_mmap_file}
use mimic_generator.Common.{bind-some}
use mimic_generator.FileWorker.Events.{
  Numbers, FileWorker, is_my_ip, is_my_conn_id, set_left, read_mmap, read_stream, next_rows,
  restart, next_file, event_of, add_row_event, load_my_row, load_row, load_rows, load_more,
  load_events_up_to,
}

module _ (numbers : Numbers) {J : JobHeap compare_events} (P : FileWorker J → Type 0)
    (same : (w w' : FileWorker J)
      → w'.short_term_heap ≡ w.short_term_heap
      → w'.my_ips ≡ w.my_ips
      → w'.my_conn_ids ≡ w.my_conn_ids
      → w'.conn_id_to_connection_pair_map ≡ w.conn_id_to_connection_pair_map
      → w'.out_events ≡ w.out_events
      → P w
      → P w')
    (row_event : (row : List Text) (w : FileWorker J) (e : Event) (ip : Text)
      → event_of numbers row w ≡ some e
      → get_elem? row 3 ≡ some ip
      → is_my_ip w ip ≡ true
      → P w
      → P (add_row_event e w)) where
  pub next_file-keeps : (w : FileWorker J) → P w → P (next_file w)
  unfolding next_file
  next_file-keeps w n = by_way (
      leb (length w.events_if_streams) (suc w.event_if_streams_itr)
      || leb (length w.mmaped_files) (suc w.mmapped_files_itr))
    where
      next : FileWorker J
      next = record w {
        event_if_streams_itr = suc w.event_if_streams_itr;
        mmapped_files_itr = suc w.mmapped_files_itr;
      }

      by_way : (b : Bool) → P (if b then restart next else next)
      by_way true = same w (restart next) refl refl refl refl refl n
      by_way false = same w next refl refl refl refl refl n

  read_mmap-keeps :
      (m : ℤ) (w : FileWorker J) (r : Records × FileWorker J) → read_mmap m w ≡ some r → P w → P r.1
  unfolding read_mmap
  read_mmap-keeps m w r e n =
      let (mmap_data, at, e₁) = bind-some (get_elem? w.mmaped_files w.mmapped_files_itr) _ r e in
      let (rows, loaded, e₂) = bind-some (load_mmap_file mmap_data 8 m) _ r e₁ in
      subst (λ q. P q.1) (some-injective (rows, w) r e₂) n

  read_stream-keeps :
      (m : ℤ) (w : FileWorker J) (r : Records × FileWorker J)
      → read_stream m w ≡ some r
      → P w
      → P r.1
  unfolding read_stream
  read_stream-keeps m w r e n =
      let (infile, at, e₁) =
        bind-some (get_elem? w.events_if_streams w.event_if_streams_itr) _ r e in
      let (l, loaded, e₂) = bind-some (load_file infile.left 8 m) _ r e₁ in
      let w' = record w {
        events_if_streams = set_left w.event_if_streams_itr l.1 w.events_if_streams;
      } in
      subst (λ q. P q.1) (some-injective (l.0, w') r e₂) (same w w' refl refl refl refl refl n)

  pub next_rows-keeps :
      (m : ℤ) (w : FileWorker J) (r : Records × FileWorker J) → next_rows m w ≡ some r → P w → P r.1
  unfolding next_rows
  next_rows-keeps m w r e n = by_way w.use_mmap e
    where
      by_way : (b : Bool) → (if b then read_mmap m w else read_stream m w) ≡ some r → P r.1
      by_way true e' = read_mmap-keeps m w r e' n
      by_way false e' = read_stream-keeps m w r e' n

  load_my_row-keeps :
      (row : List Text) (produced : ℕ) (w : FileWorker J) (r : ℕ × FileWorker J)
      → load_my_row numbers row produced w ≡ some r
      → P w
      → P r.1
  unfolding load_my_row
  load_my_row-keeps row produced w r at n =
      let (e, a₁, e₁) = bind-some (event_of numbers row w) _ r at in
      let (ip, a₂, e₂) = bind-some (get_elem? row 3) _ r e₁ in
      elim (Bool-cases (is_my_ip w ip)) [
        | inl mine ↦
            subst (λ q. P q.1) (some-injective (suc produced, add_row_event e w) r (rw mine at e₂))
              (row_event row w e ip a₁ a₂ mine n)
        | inr foreign ↦ subst (λ q. P q.1) (some-injective (produced, w) r (rw foreign at e₂)) n
      ]

  load_row-keeps :
      (row : List Text) (produced : ℕ) (w : FileWorker J) (r : ℕ × FileWorker J)
      → load_row numbers row produced w ≡ some r
      → P w
      → P r.1
  unfolding load_row
  load_row-keeps row produced w r at n =
      let (conn_id, a₁, e₁) = bind-some (get_elem? row 1 >>= numbers.stol) _ r at in
      let (q, a₂, e₂) =
        bind-some
          (if is_my_conn_id w conn_id
            then load_my_row numbers row produced w
            else some (produced, w))
          _ r e₁ in
      let (time, a₃, e₃) =
        bind-some
          (get_elem? row 7
            >>= (λ t. numbers.milliseconds t (scale q.1.looped_count q.1.loop_duration)))
          _ r e₂ in
      let kept = by_way q (is_my_conn_id w conn_id) a₂ in
      subst (λ x. P x.1) (some-injective (q.0, record q.1 { last_event_time = time }) r e₃)
        (same q.1 (record q.1 { last_event_time = time }) refl refl refl refl refl kept)
    where
      by_way :
          (q : ℕ × FileWorker J) (b : Bool)
          → (if b then load_my_row numbers row produced w else some (produced, w)) ≡ some q
          → P q.1
      by_way q true e = load_my_row-keeps row produced w q e n
      by_way q false e = subst (λ x. P x.1) (some-injective (produced, w) q e) n

  load_rows-keeps :
      (rows : Records) (produced : ℕ) (w : FileWorker J) (r : ℕ × FileWorker J)
      → load_rows numbers rows produced w ≡ some r
      → P w
      → P r.1
  unfolding load_rows
  load_rows-keeps [] produced w r at n = subst (λ x. P x.1) (some-injective (produced, w) r at) n
  load_rows-keeps (row ∷ rows) produced w r at n =
      let (q, a, e) = bind-some (load_row numbers row produced w) _ r at in
      load_rows-keeps rows q.0 q.1 r e (load_row-keeps row produced w q a n)

  load_more-keeps :
      (k to_get : ℕ) (rows : Records) (produced : ℕ) (w : FileWorker J) (r : ℕ × FileWorker J)
      → load_more numbers k to_get rows produced w ≡ some r
      → P w
      → P r.1
  unfolding load_more
  load_more-keeps zero to_get rows produced w r at n = absurd (cc)
  load_more-keeps (suc k) to_get rows produced w r at n = elim (Bool-cases (ltb produced to_get)) [
    | inl goes ↦
        let w₀ = if length rows == 0 then next_file w else w in
        let rest = λ (q : ℕ × FileWorker J).
          next_rows (pos to_get -ℤ pos q.0) q.1
          >>= (λ (x : Records × FileWorker J). load_more numbers k to_get x.0 q.0 x.1) in
        let e₀ : (load_rows numbers rows produced w₀ >>= rest) ≡ some r = rw goes at at in
        let (q, loaded, e₁) = bind-some (load_rows numbers rows produced w₀) rest r e₀ in
        let (x, read, e₂) =
          bind-some (next_rows (pos to_get -ℤ pos q.0) q.1)
            (λ (x : Records × FileWorker J). load_more numbers k to_get x.0 q.0 x.1) r e₁ in
        load_more-keeps k to_get x.0 q.0 x.1 r e₂ (
          next_rows-keeps (pos to_get -ℤ pos q.0) q.1 x read
            (load_rows-keeps rows produced w₀ q loaded (from_file (length rows == 0))))
    | inr ends ↦ subst (λ x. P x.1) (some-injective (produced, w) r (rw ends at at)) n
  ]
    where
      from_file : (b : Bool) → P (if b then next_file w else w)
      from_file true = next_file-keeps w n
      from_file false = n

  -- `loadEvents` keeps a property of the heap, the addresses, the connections and the queue that each
  -- event of a row keeps.
  pub load_events-keeps :
      (to_get k : ℕ) (w w' : FileWorker J)
      → load_events_up_to numbers to_get k w ≡ some w'
      → P w
      → P w'
  unfolding load_events_up_to
  load_events-keeps to_get k w w' at n =
      let (r, read, e₁) = bind-some (next_rows (pos to_get) w) _ w' at in
      let (q, loaded, e₂) = bind-some (load_more numbers k to_get r.0 0 r.1) _ w' e₁ in
      subst P (some-injective q.1 w' e₂)
        (load_more-keeps k to_get r.0 0 r.1 q loaded (next_rows-keeps (pos to_get) w r read n))
