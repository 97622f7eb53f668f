-- ===== src/FileWorker/Loading.antt =====
-- src/fileWorker.cpp, `loadEvents`: what it leaves in the streams.
use mimic_generator.Common.{
  bind-some, ℕ, zero, suc, ◌<◌, ◌≡◌, refl, sym, ap, ◌∙◌, inl, inr, Bool, true, false, Option, none,
  some, List, [], ◌∷◌, if◌then◌else◌, ◌==◌, ltb, length, get_elem?, ◌>>=◌, arith, Bool-cases,
}
use mathlib.Core.Path.{subst}
use mathlib.Core.Option.{some-injective}
use mimic_generator.Common.Int.{ℤ, pos, ◌-ℤ◌, ◌≤ℤ◌}
use mimic_generator.Common.Maps.{Text}
use mimic_generator.EventHeap.{compare_events}
use mimic_generator.EventHeap.Contract.{JobHeap}
use mimic_generator.FileWorker.{Records, until, is_last, load_lines, load_file, load_mmap_file}
use mimic_generator.FileWorker.Records.{with_line, load_lines-line, record_of-returns}
use mimic_generator.FileWorker.Events.{
  Numbers, Stream, FileWorker, set_left, read_mmap, read_stream, next_rows, load_rows, load_more,
  load_events_up_to, next_file,
}

never_last : (num_records : ℤ) (i : ℕ) → num_records ≤ℤ pos 0 → is_last num_records i ≡ false
never_last num_records i le = ground arith

left_of : Option (Records × Text) → Text
left_of none = []
left_of (some (rows, left)) = left

left_of-with_line :
    (n : ℕ) (row : List Text) (o : Option (Records × Text))
    → left_of (o >>= with_line n row) ≡ left_of o
unfolding left_of
left_of-with_line n row none = refl
left_of-with_line n row (some q) = refl

-- Without a limit every line is read.
load_lines-all :
    (n : ℕ) (m : ℤ) (k i : ℕ) (s : Text) → m ≤ℤ pos 0 → left_of (load_lines k n m i s) ≡ []
unfolding load_lines left_of
load_lines-all n m zero i s le = refl
load_lines-all n m (suc k) i [] le = refl
load_lines-all n m (suc k) i (c ∷ s) le =
    let rest = (until 10 (c ∷ s)).1 in
    let (row, r) = record_of-returns (until 10 (c ∷ s)).0 in
    ap left_of (load_lines-line n m k i c s row r)
    ∙ left_of-with_line n row
        (if is_last m (suc i) then some ([], rest) else load_lines k n m (suc i) rest)
    ∙ rw (never_last m (suc i) le) (load_lines-all n m k (suc i) rest le)

load_file-all :
    (n : ℕ) (m : ℤ) (s : Text) (rows : Records) (left : Text)
    → m ≤ℤ pos 0
    → load_file s n m ≡ some (rows, left)
    → left ≡ []
unfolding load_file left_of
load_file-all n m s rows left le e = sym (ap left_of e) ∙ load_lines-all n m (suc (length s)) 0 s le

get_elem?-set_left :
    (i : ℕ) (left : Text) (ss : List Stream) (s : Stream)
    → get_elem? (set_left i left ss) i ≡ some s
    → s.left ≡ left
get_elem?-set_left i left [] s e = absurd (cc)
get_elem?-set_left zero left (t ∷ ss) s e =
    sym (ap (λ x. x.left) (some-injective (record t { left = left }) s e))
get_elem?-set_left (suc i) left (t ∷ ss) s e = get_elem?-set_left i left ss s e

module _ {J : JobHeap compare_events} where
  -- The current stream, if streams are read, has been read to its end.
  abbrev pub AtEnd : FileWorker J → Type 0
  AtEnd w =
      w.use_mmap ≡ false
      → (s : Stream) → get_elem? w.events_if_streams w.event_if_streams_itr ≡ some s
      → s.left ≡ []

  read_mmap-same :
      (m : ℤ) (w : FileWorker J) (rows : Records) (w' : FileWorker J)
      → read_mmap m w ≡ some (rows, w')
      → w ≡ w'
  unfolding read_mmap
  read_mmap-same m w rows w' e =
      let (mmap_data, at, e₁) =
        bind-some (get_elem? w.mmaped_files w.mmapped_files_itr) _ (rows, w') e in
      let (rows', loaded, e₂) = bind-some (load_mmap_file mmap_data 8 m) _ (rows, w') e₁ in
      ap (λ q. q.1) (some-injective (rows', w) (rows, w') e₂)

  read_stream-AtEnd :
      (m : ℤ) (w : FileWorker J) (rows : Records) (w' : FileWorker J)
      → m ≤ℤ pos 0
      → read_stream m w ≡ some (rows, w')
      → AtEnd w'
  unfolding read_stream
  read_stream-AtEnd m w rows w' le e =
      let (infile, at, e₁) =
        bind-some (get_elem? w.events_if_streams w.event_if_streams_itr) _ (rows, w') e in
      let ((rows', left), loaded, e₂) = bind-some (load_file infile.left 8 m) _ (rows, w') e₁ in
      let end = load_file-all 8 m infile.left rows' left le loaded in
      let next = record w {
        events_if_streams = set_left w.event_if_streams_itr left w.events_if_streams;
      } in
      subst AtEnd (ap (λ q. q.1) (some-injective (rows', next) (rows, w') e₂)) (λ off s found.
        get_elem?-set_left w.event_if_streams_itr left w.events_if_streams s found ∙ end)

  next_rows-AtEnd :
      (m : ℤ) (w : FileWorker J) (rows : Records) (w' : FileWorker J)
      → m ≤ℤ pos 0
      → next_rows m w ≡ some (rows, w')
      → AtEnd w'
  unfolding next_rows
  next_rows-AtEnd m w rows w' le e = by_way w.use_mmap refl e
    where
      by_way :
          (b : Bool)
          → w.use_mmap ≡ b
          → (if b then read_mmap m w else read_stream m w) ≡ some (rows, w')
          → AtEnd w'
      by_way true mapped found = λ off s at.
          absurd (let both = ap (λ x. x.use_mmap) (read_mmap-same m w rows w' found) in cc)
      by_way false streamed found = read_stream-AtEnd m w rows w' le found

no_more_wanted :
    (to_get produced : ℕ) → ltb produced to_get ≡ false → pos to_get -ℤ pos produced ≤ℤ pos 0
unfolding ◌-ℤ◌
no_more_wanted to_get produced done = ground arith

module _ (numbers : Numbers) {J : JobHeap compare_events} where
  load_more-AtEnd :
      (k to_get : ℕ) (rows : Records) (produced p : ℕ) (w w' : FileWorker J)
      → (ltb produced to_get ≡ false → AtEnd w)
      → load_more numbers k to_get rows produced w ≡ some (p, w')
      → AtEnd w'
  unfolding load_more
  load_more-AtEnd zero to_get rows produced p w w' before e = absurd (cc)
  load_more-AtEnd (suc k) to_get rows produced p w w' before e =
      elim (Bool-cases (ltb produced to_get)) [
        | inl goes ↦
            let w₀ = if length rows == 0 then next_file w else w in
            let rest = λ (q : ℕ × FileWorker J).
              next_rows (pos to_get -ℤ pos q.0) q.1
              >>= (λ (r : Records × FileWorker J). load_more numbers k to_get r.0 q.0 r.1) in
            let e₀ : (load_rows numbers rows produced w₀ >>= rest) ≡ some (p, w') = rw goes at e in
            let (q, loaded, e₁) = bind-some (load_rows numbers rows produced w₀) rest (p, w') e₀ in
            let (r, read, e₂) =
              bind-some (next_rows (pos to_get -ℤ pos q.0) q.1)
                (λ (r : Records × FileWorker J). load_more numbers k to_get r.0 q.0 r.1) (p, w')
                e₁ in
            load_more-AtEnd k to_get r.0 q.0 p r.1 w'
              (λ done.
                next_rows-AtEnd (pos to_get -ℤ pos q.0) q.1 r.0 r.1 (no_more_wanted to_get q.0 done)
                  read)
              e₂
        | inr ends ↦
            subst AtEnd (ap (λ q. q.1) (some-injective (produced, w) (p, w') (rw ends at e)))
              (before ends)
      ]

  -- When `loadEvents`, asked for one event or more, has loaded them from streams, it has read the
  -- current stream to its end: the rows behind them are read, and not loaded.
  pub load_events-AtEnd :
      (to_get k : ℕ) (w w' : FileWorker J)
      → 0 < to_get
      → load_events_up_to numbers to_get k w ≡ some w'
      → AtEnd w'
  unfolding load_events_up_to
  load_events-AtEnd to_get k w w' some_wanted e =
      let ((rows, w₁), read, e₁) = bind-some (next_rows (pos to_get) w) _ w' e in
      let ((p, w₂), loaded, e₂) = bind-some (load_more numbers k to_get rows 0 w₁) _ w' e₁ in
      subst AtEnd (some-injective w₂ w' e₂)
        (load_more-AtEnd k to_get rows 0 p w₁ w₂ (λ done. absurd (ground arith)) loaded)
