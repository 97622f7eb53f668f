-- ===== src/FileWorker/Written.antt =====
-- src/fileWorker.cpp, `loadFile`: a file that is written as lines of fields.
use mimic_generator.Common.{
  ℕ, zero, suc, ◌<◌, ◌≡◌, ◌≢◌, refl, ap, ◌∙◌, true, false, some, List, [], ◌∷◌, ◌++◌, ◌==◌, length,
  map, All, ◌>>=◌, arith, length-append, if◌then◌else◌,
}
use mimic_generator.Common.Int.{negsuc}
use mimic_generator.Common.Maps.{Text}
use mimic_generator.FileWorker.{trim, record_of, Records, is_last, load_lines, load_file}
use mimic_generator.FileWorker.Fields.{join, AreFields, record_of-join, until-append}
use mimic_generator.FileWorker.Records.{load_lines-line, with_line}
use mimic_generator.FileWorker.Trim.{IsTrimmed, trim_id}

-- Each row is a line.
abbrev pub written : Records → Text
written [] = []
written (row ∷ rows) = join row ++ 10 ∷ written rows

-- A row that can be read back: its number of fields is right, its line has no end of a line inside, no
-- field holds a comma or begins or ends with a blank, and the last is not empty.
pub record IsRow (num_fields : ℕ) (row : List Text) : Type 0 where
  pub size : length row ≡ num_fields
  pub one_line : All (λ c. c ≢ 10) (join row)
  pub are_fields : AreFields row
  pub trimmed : All IsTrimmed row

map-trim : (row : List Text) → All IsTrimmed row → map trim row ≡ row
map-trim [] t = refl
map-trim (f ∷ row) (t, ts) = rw (trim_id f t, map-trim row ts) refl

module _ (num_fields : ℕ) where
  -- No line is the last, where the number of records is below 0.
  go_on :
      (k i : ℕ) (rest : Text) (row : List Text) (left : Text)
      → ((if is_last (negsuc 0) (suc i)
            then some ([], left)
            else load_lines k num_fields (negsuc 0) (suc i) rest)
          >>= with_line num_fields row)
        ≡ (load_lines k num_fields (negsuc 0) (suc i) rest >>= with_line num_fields row)
  go_on k i rest row left = let on : is_last (negsuc 0) (suc i) ≡ false = ground arith in rw on refl

  at_end : (k i : ℕ) → load_lines (suc k) num_fields (negsuc 0) i [] ≡ some ([], [])
  unfolding load_lines
  at_end k i = refl

  line :
      (k i : ℕ) (t : Text) (rest : Text) (row : List Text)
      → All (λ c. c ≢ 10) t
      → record_of t ≡ some row
      → load_lines (suc k) num_fields (negsuc 0) i (t ++ 10 ∷ rest)
        ≡ (load_lines k num_fields (negsuc 0) (suc i) rest >>= with_line num_fields row)
  line k i [] rest row free e =
      load_lines-line num_fields (negsuc 0) k i 10 rest row e ∙ go_on k i rest row rest
  line k i (c ∷ t) rest row free e =
      let at = until-append 10 (c ∷ t) rest free in
      load_lines-line num_fields (negsuc 0) k i c (t ++ 10 ∷ rest) row
        (ap (λ (q : Text × Text). record_of q.0) at ∙ e)
      ∙ ap
          (λ (q : Text × Text).
            (if is_last (negsuc 0) (suc i)
              then some ([], q.1)
              else load_lines k num_fields (negsuc 0) (suc i) q.1)
            >>= with_line num_fields row)
          at
      ∙ go_on k i rest row rest

  lines :
      (k i : ℕ) (rows : Records)
      → All (IsRow num_fields) rows
      → length (written rows) < k
      → load_lines k num_fields (negsuc 0) i (written rows) ≡ some (rows, [])
  lines zero i rows are lt = absurd (omega arith)
  lines (suc k) i [] are lt = at_end k i
  lines (suc k) i (row ∷ rows) (is, are) lt =
      let read = record_of-join row is.are_fields ∙ ap some (map-trim row is.trimmed) in
      let more =
        lines k (suc i) rows are (omega (arith, length-append (join row) (10 ∷ written rows))) in
      let right : (length row == num_fields) ≡ true = ground (arith, is.size) in
      line k i (join row) (written rows) row is.one_line read
      ∙ ap (λ o. o >>= with_line num_fields row) more
      ∙ ap (λ b. some ((if b then row ∷ rows else rows), [])) right

  -- A file of lines of fields is read back as its rows, to the end, if each of them can be read back.
  pub load_file-written :
      (rows : Records)
      → All (IsRow num_fields) rows
      → load_file (written rows) num_fields (negsuc 0) ≡ some (rows, [])
  unfolding load_file
  load_file-written rows are = lines (suc (length (written rows))) 0 rows are (omega arith)
