-- ===== src/FileWorker/Endless.antt =====
-- src/fileWorker.cpp, `loadEvents`: a worker without connections.
use mathlib.Core.Path.{subst}
use mathlib.Core.Option.{some-injective}
use mimic_generator.Common.{
  ℕ, zero, suc, ◌<◌, ◌≡◌, ◌≢◌, refl, sym, ap, ◌∙◌, Bool, true, false, some, List, [], ◌∷◌, arith,
  get_elem?, ◌>>=◌, bind-some, if◌then◌else◌, ltb, length, ◌==◌,
}
use mimic_generator.Common.Int.{ℤ, pos, ◌-ℤ◌, scale}
use mimic_generator.Common.Maps.{Text}
use mimic_generator.EventHeap.{compare_events}
use mimic_generator.EventHeap.Contract.{JobHeap}
use mimic_generator.FileWorker.{Records}
use mimic_generator.FileWorker.Events.{
  Numbers, FileWorker, is_my_conn_id, is_id_in, next_rows, next_file, load_my_row, load_row,
  load_rows, load_more, load_events_up_to,
}
use mimic_generator.FileWorker.Keeps.{next_rows-keeps, next_file-keeps}

module _ (numbers : Numbers) {J : JobHeap compare_events} where
  abbrev pub HasNone : FileWorker J → Type 0
  HasNone w = w.my_conn_ids ≡ []

  next_rows-HasNone :
      (m : ℤ) (w : FileWorker J) (r : Records × FileWorker J)
      → next_rows m w ≡ some r
      → HasNone w
      → HasNone r.1
  next_rows-HasNone =
      next_rows-keeps numbers HasNone (λ w w' heap ips ids conns out empty. ids ∙ empty)
        (λ row w e ip a b c empty. empty)

  next_file-HasNone : (w : FileWorker J) → HasNone w → HasNone (next_file w)
  next_file-HasNone =
      next_file-keeps numbers HasNone (λ w w' heap ips ids conns out empty. ids ∙ empty)
        (λ row w e ip a b c empty. empty)

  -- A row produces no event.
  load_row-HasNone :
      (row : List Text) (produced : ℕ) (w : FileWorker J) (r : ℕ × FileWorker J)
      → load_row numbers row produced w ≡ some r
      → HasNone w
      → (r.0 ≡ produced) × HasNone r.1
  unfolding load_row
  load_row-HasNone row produced w r e empty =
      let (conn_id, a₁, e₁) = bind-some (get_elem? row 1 >>= numbers.stol) _ r e in
      let (q, a₂, e₂) =
        bind-some
          (if is_my_conn_id w conn_id
            then load_my_row numbers row produced w
            else some (produced, w))
          _ r e₁ in
      let (time, a₃, e₃) =
        bind-some
          (get_elem? row 7
            >>= (λ t. numbers.milliseconds t (scale q.1.looped_count q.1.loop_duration)))
          _ r e₂ in
      let foreign : is_my_conn_id w conn_id ≡ false = ap (is_id_in conn_id) empty in
      let same : some (produced, w) ≡ some q =
        ap (λ b. if b then load_my_row numbers row produced w else some (produced, w)) (sym foreign)
        ∙ a₂ in
      let at = some-injective (produced, w) q same in
      subst (λ (x : ℕ × FileWorker J). (x.0 ≡ produced) × HasNone x.1) (some-injective _ r e₃)
        (sym (ap (λ x. x.0) at), sym (ap (λ x. x.1.my_conn_ids) at) ∙ empty)

  load_rows-HasNone :
      (rows : Records) (produced : ℕ) (w : FileWorker J) (r : ℕ × FileWorker J)
      → load_rows numbers rows produced w ≡ some r
      → HasNone w
      → (r.0 ≡ produced) × HasNone r.1
  unfolding load_rows
  load_rows-HasNone [] produced w r e empty =
      subst (λ (x : ℕ × FileWorker J). (x.0 ≡ produced) × HasNone x.1) (some-injective _ r e)
        (refl, empty)
  load_rows-HasNone (row ∷ rows) produced w r e empty =
      let (q, a, e') = bind-some (load_row numbers row produced w) _ r e in
      let (same, empty') = load_row-HasNone row produced w q a empty in
      let (same', empty'') = load_rows-HasNone rows q.0 q.1 r e' empty' in (same' ∙ same, empty'')

  load_more-endless :
      (k to_get : ℕ) (rows : Records) (w : FileWorker J) (r : ℕ × FileWorker J)
      → 0 < to_get
      → HasNone w
      → load_more numbers k to_get rows 0 w ≢ some r
  unfolding load_more
  load_more-endless zero to_get rows w r wants empty e = cc
  load_more-endless (suc k) to_get rows w r wants empty e =
      let w₀ = if length rows == 0 then next_file w else w in
      let rest = λ (q : ℕ × FileWorker J).
        next_rows (pos to_get -ℤ pos q.0) q.1
        >>= (λ (x : Records × FileWorker J). load_more numbers k to_get x.0 q.0 x.1) in
      let goes : ltb 0 to_get ≡ true = ground arith in
      let e₀ : (load_rows numbers rows 0 w₀ >>= rest) ≡ some r = rw goes at e in
      let (q, loaded, e₁) = bind-some (load_rows numbers rows 0 w₀) rest r e₀ in
      let (x, read, e₂) =
        bind-some (next_rows (pos to_get -ℤ pos q.0) q.1)
          (λ (x : Records × FileWorker J). load_more numbers k to_get x.0 q.0 x.1) r e₁ in
      let (same, empty') = load_rows-HasNone rows 0 w₀ q loaded (from_file (length rows == 0)) in
      load_more-endless k to_get x.0 x.1 r wants
        (next_rows-HasNone (pos to_get -ℤ pos q.0) q.1 x read empty')
        (subst (λ n. load_more numbers k to_get x.0 n x.1 ≡ some r) same e₂)
    where
      from_file : (b : Bool) → HasNone (if b then next_file w else w)
      from_file true = next_file-HasNone w empty
      from_file false = empty

  -- If none of the connections is one of the worker's, then `loadEvents`, asked for one event or more,
  -- does not return, however often it reads the files.
  pub load_events-endless :
      (to_get k : ℕ) (w : FileWorker J)
      → 0 < to_get
      → w.my_conn_ids ≡ []
      → (w' : FileWorker J) → load_events_up_to numbers to_get k w ≢ some w'
  unfolding load_events_up_to
  load_events-endless to_get k w wants empty w' e =
      let (r, read, e₁) = bind-some (next_rows (pos to_get) w) _ w' e in
      let (q, loaded, e₂) = bind-some (load_more numbers k to_get r.0 0 r.1) _ w' e₁ in
      load_more-endless k to_get r.0 r.1 q wants (next_rows-HasNone (pos to_get) w r read empty)
        loaded
