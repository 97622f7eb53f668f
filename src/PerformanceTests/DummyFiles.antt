-- ===== src/PerformanceTests/DummyFiles.antt =====
-- src/performanceTests.cpp, `createDummyFiles`: the files that are written, as `loadFile` reads them.
use mimic_generator.Common.{
  ℕ, zero, suc, ◌≡◌, ◌≢◌, refl, Bool, true, not, ◌&&◌, some, List, [], ◌∷◌, ◌++◌, ◌==◌, length, All,
  arith,
}
use mimic_generator.Common.Int.{negsuc}
use mimic_generator.Common.Maps.{Text}
use mimic_generator.Connections.Decimal.{decimal, IsDigit, decimal-IsDigit}
use mimic_generator.FileWorker.{Records, is_blank, load_file}
use mimic_generator.FileWorker.Events.{send_text}
use mimic_generator.FileWorker.Fields.{join, AreFields, CommaFree}
use mimic_generator.FileWorker.Trim.{IsTrimmed, EndsNonBlank}
use mimic_generator.FileWorker.Written.{written, IsRow, load_file-written}

abbrev pub conn_text : Text
conn_text = b'C' ∷ b'O' ∷ b'N' ∷ b'N' ∷ []

abbrev pub event_text : Text
event_text = b'E' ∷ b'V' ∷ b'E' ∷ b'N' ∷ b'T' ∷ []

-- The address of four equal numbers below 10, by their digit.
abbrev pub address_text : ℕ → Text
address_text d = d ∷ b'.' ∷ d ∷ b'.' ∷ d ∷ b'.' ∷ d ∷ []

abbrev pub port_text : Text
port_text = b'5' ∷ b'0' ∷ b'0' ∷ b'5' ∷ []

abbrev pub arrow_text : Text
arrow_text = b'-' ∷ b'>' ∷ []

abbrev pub hundred_text : Text
hundred_text = b'1' ∷ b'0' ∷ b'0' ∷ []

-- What is written for the connection `i`; `stime` is what the stream writes for the time.
abbrev pub conn_row : (stime : Text) (i : ℕ) → List Text
conn_row stime i =
    conn_text
    ∷ stime
    ∷ decimal i
    ∷ address_text b'5'
    ∷ port_text
    ∷ arrow_text
    ∷ address_text b'1'
    ∷ port_text
    ∷ []

-- What is written for the event `i`; `r` is what the stream writes for the time to the next event.
abbrev pub event_row : (stime r : Text) (i : ℕ) → List Text
event_row stime r i =
    event_text
    ∷ decimal i
    ∷ (b'3' ∷ [])
    ∷ address_text b'5'
    ∷ send_text
    ∷ hundred_text
    ∷ stime
    ∷ r
    ∷ []

-- The rows of the loop of `n` turns, from the turn `i` on.
abbrev pub rows_from : (ℕ → List Text) → (n i : ℕ) → Records
rows_from row zero i = []
rows_from row (suc n) i = row i ∷ rows_from row n (suc i)

abbrev pub conn_file : (stime : ℕ → Text) → Text
conn_file stime = written (rows_from (λ i. conn_row (stime i) i) 500 0)

abbrev pub events_file : (stime r : ℕ → Text) → Text
events_file stime r = written (rows_from (λ i. event_row (stime i) (r i) i) 10 0)

-- Neither a comma, nor the end of a line, nor a blank.
abbrev pub is_plain : ℕ → Bool
is_plain c = not (c == b',') && (not (c == 10) && not (is_blank c))

abbrev pub IsPlain : Text → Type 0
IsPlain = All (λ c. is_plain c ≡ true)

-- The last field is not empty.
abbrev pub EndsNonEmpty : List Text → Type 0
EndsNonEmpty [] = Unit
EndsNonEmpty (f ∷ []) = f ≢ []
EndsNonEmpty (f ∷ g ∷ fs) = EndsNonEmpty (g ∷ fs)

all_plain : Text → Bool
all_plain [] = true
all_plain (c ∷ t) = is_plain c && all_plain t

all_plain-IsPlain : (t : Text) → all_plain t ≡ true → IsPlain t
unfolding all_plain
all_plain-IsPlain [] e = tt
all_plain-IsPlain (c ∷ t) e = (ground arith, all_plain-IsPlain t (ground arith))

plain-CommaFree : (t : Text) → IsPlain t → CommaFree t
plain-CommaFree [] p = tt
plain-CommaFree (c ∷ t) (p, ps) = (λ e. ground arith, plain-CommaFree t ps)

plain-EndsNonBlank : (t : Text) → IsPlain t → EndsNonBlank t
plain-EndsNonBlank [] p = tt
plain-EndsNonBlank (c ∷ []) (p, ps) = ground arith
plain-EndsNonBlank (c ∷ d ∷ t) (p, ps) = plain-EndsNonBlank (d ∷ t) ps

plain-IsTrimmed : (t : Text) → IsPlain t → IsTrimmed t
plain-IsTrimmed [] p = tt
plain-IsTrimmed (c ∷ t) (p, ps) = (ground arith, plain-EndsNonBlank (c ∷ t) (p, ps))

all-IsTrimmed : (row : List Text) → All IsPlain row → All IsTrimmed row
all-IsTrimmed [] p = tt
all-IsTrimmed (f ∷ row) (p, ps) = (plain-IsTrimmed f p, all-IsTrimmed row ps)

plain-AreFields : (row : List Text) → All IsPlain row → EndsNonEmpty row → AreFields row
plain-AreFields [] p ne = tt
plain-AreFields (f ∷ []) (p, ps) ne = (plain-CommaFree f p, ne)
plain-AreFields (f ∷ g ∷ fs) (p, ps) ne = (plain-CommaFree f p, plain-AreFields (g ∷ fs) ps ne)

-- A field and what follows it in its line.
one_line-append : (f s : Text) → IsPlain f → All (λ c. c ≢ 10) s → All (λ c. c ≢ 10) (f ++ s)
one_line-append [] s p rest = rest
one_line-append (c ∷ f) s (p, ps) rest = (λ e. ground arith, one_line-append f s ps rest)

plain-one_line : (f : Text) → IsPlain f → All (λ c. c ≢ 10) f
plain-one_line [] p = tt
plain-one_line (c ∷ f) (p, ps) = (λ e. ground arith, plain-one_line f ps)

join-one_line : (row : List Text) → All IsPlain row → All (λ c. c ≢ 10) (join row)
join-one_line [] p = tt
join-one_line (f ∷ []) (p, ps) = plain-one_line f p
join-one_line (f ∷ g ∷ fs) (p, ps) =
    one_line-append f (b',' ∷ join (g ∷ fs)) p ((λ e. omega arith), join-one_line (g ∷ fs) ps)

plain-IsRow : (row : List Text) → All IsPlain row → EndsNonEmpty row → IsRow (length row) row
plain-IsRow row p ne = record {
  size = refl;
  one_line = join-one_line row p;
  are_fields = plain-AreFields row p ne;
  trimmed = all-IsTrimmed row p;
}

digits-IsPlain : (t : Text) → All IsDigit t → IsPlain t
digits-IsPlain [] d = tt
digits-IsPlain (c ∷ t) (d, ds) = (ground arith, digits-IsPlain t ds)

decimal-IsPlain : (n : ℕ) → IsPlain (decimal n)
decimal-IsPlain n = digits-IsPlain (decimal n) (decimal-IsDigit n)

all-rows :
    (row : ℕ → List Text) (size n i : ℕ)
    → ((j : ℕ) → IsRow size (row j))
    → All (IsRow size) (rows_from row n i)
all-rows row size zero i is = tt
all-rows row size (suc n) i is = (is i, all-rows row size n (suc i) is)

conn_row-IsRow : (stime : Text) (i : ℕ) → IsPlain stime → IsRow 8 (conn_row stime i)
unfolding all_plain
conn_row-IsRow stime i plain =
    plain-IsRow (conn_row stime i)
      (
        all_plain-IsPlain conn_text refl,
        (
          plain,
          (
            decimal-IsPlain i,
            (
              all_plain-IsPlain (address_text b'5') refl,
              (
                all_plain-IsPlain port_text refl,
                (
                  all_plain-IsPlain arrow_text refl,
                  (
                    all_plain-IsPlain (address_text b'1') refl,
                    (all_plain-IsPlain port_text refl, tt),
                  ),
                ),
              ),
            ),
          ),
        ),
      )
      (λ e. cc)

event_row-IsRow :
    (stime r : Text) (i : ℕ) → IsPlain stime → IsPlain r → r ≢ [] → IsRow 8 (event_row stime r i)
unfolding all_plain
event_row-IsRow stime r i ps pr ne =
    plain-IsRow (event_row stime r i)
      (
        all_plain-IsPlain event_text refl,
        (
          decimal-IsPlain i,
          (
            all_plain-IsPlain (b'3' ∷ []) refl,
            (
              all_plain-IsPlain (address_text b'5') refl,
              (
                all_plain-IsPlain send_text refl,
                (all_plain-IsPlain hundred_text refl, (ps, (pr, tt))),
              ),
            ),
          ),
        ),
      )
      ne

-- The file of connections that is written is read as its 500 rows, if the texts of the times hold
-- neither commas nor blanks nor ends of lines.
pub load_file-conn_file :
    (stime : ℕ → Text)
    → ((i : ℕ) → IsPlain (stime i))
    → load_file (conn_file stime) 8 (negsuc 0)
      ≡ some (rows_from (λ i. conn_row (stime i) i) 500 0, [])
load_file-conn_file stime plain =
    load_file-written 8 (rows_from (λ i. conn_row (stime i) i) 500 0)
      (all-rows (λ i. conn_row (stime i) i) 8 500 0 (λ i. conn_row-IsRow (stime i) i (plain i)))

-- A file of events that is written is read as its 10 rows, if the texts of the times hold neither
-- commas nor blanks nor ends of lines, and those of the times between events are not empty.
pub load_file-events_file :
    (stime r : ℕ → Text)
    → ((i : ℕ) → IsPlain (stime i))
    → ((i : ℕ) → IsPlain (r i))
    → ((i : ℕ) → r i ≢ [])
    → load_file (events_file stime r) 8 (negsuc 0)
      ≡ some (rows_from (λ i. event_row (stime i) (r i) i) 10 0, [])
load_file-events_file stime r ps pr ne =
    load_file-written 8 (rows_from (λ i. event_row (stime i) (r i) i) 10 0) (
      all-rows (λ i. event_row (stime i) (r i) i) 8 10 0
        (λ i. event_row-IsRow (stime i) (r i) i (ps i) (pr i) (ne i)))
