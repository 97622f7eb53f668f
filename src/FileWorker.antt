-- ===== src/FileWorker.antt =====
-- src/fileWorker.cpp and include/fileWorker.h: the reading of comma-separated files, with streams and
-- with mapped memory. A stream is the text that is left in it.
pub mod Connecting
pub mod Endless
pub mod Events
pub mod Fields
pub mod Keeps
pub mod Known
pub mod Loading
pub mod Queueing
pub mod Records
pub mod Unended
pub mod Written
pub mod Startup
pub mod Trim
pub mod Types
pub mod Tests
use mimic_generator.Common.{
  ℕ, zero, suc, ◌+◌, ◌-◌, Bool, true, false, not, ◌&&◌, Option, none, some, List, [], ◌∷◌, ◌++◌,
  if◌then◌else◌, ◌==◌, leb, length, take, drop, ◌>>=◌,
}
use mimic_generator.Common.Int.{ℤ, pos, negsuc, leb_ℤ}
use mimic_generator.Common.Maps.{Text}

-- The white space of the default argument: space and tab.
abbrev pub is_blank : ℕ → Bool
is_blank c = if c == b' ' then true else c == 9

abbrev pub find_first_not_blank : Text → Option ℕ
find_first_not_blank [] = none
find_first_not_blank (c ∷ s) =
    if is_blank c
    then (elim (find_first_not_blank s) [ none ↦ none | some i ↦ some (suc i) ])
    else some 0

abbrev pub find_last_not_blank : Text → Option ℕ
find_last_not_blank [] = none
find_last_not_blank (c ∷ s) = elim (find_last_not_blank s) [
  | none ↦ if is_blank c then none else some 0
  | some i ↦ some (suc i)
]

unfoldable pub trim : Text → Text
trim s = elim (find_first_not_blank s) [
  | none ↦ []
  | some str_begin ↦ elim (find_last_not_blank s) [
    | none ↦ []
    | some str_end ↦ take (str_end - str_begin + 1) (drop str_begin s)
  ]
]

-- The characters before the first `delim`, and those after it.
abbrev pub until : (delim : ℕ) → Text → Text × Text
until delim [] = ([], [])
until delim (c ∷ s) =
    let (line, rest) = until delim s in if c == delim then ([], s) else (c ∷ line, rest)

-- `std::getline`: none if it extracts nothing and fails.
abbrev pub getline : (delim : ℕ) → Text → Option (Text × Text)
getline delim [] = none
getline delim (c ∷ s) = some (until delim (c ∷ s))

-- The text up to the end that `memchr` finds, and that after it; none where it finds no end.
abbrev pub memchr_line : Text → Option (Text × Text)
memchr_line [] = none
memchr_line (c ∷ s) =
    let more = memchr_line s in
    if c == 10 then some ([], s) else elim more [ none ↦ none | some (l, r) ↦ some (c ∷ l, r) ]

-- The fields of a line, with fuel for them.
unfoldable pub fields : ℕ → Text → Option (List Text)
fields zero ss = none
fields (suc k) ss = elim (getline b',' ss) [
  | none ↦ some []
  | some (s, rest) ↦ do more ← fields k rest; some (trim s ∷ more)
]

-- Every field takes a character at least.
unfoldable pub record_of : Text → Option (List Text)
record_of line = fields (suc (length line)) line

abbrev pub Records : Type 0
Records = List (List Text)

-- A row of the right size is put before the others.
abbrev pub keep : (num_fields : ℕ) → List Text → Records → Records
keep num_fields row kept = if length row == num_fields then row ∷ kept else kept

-- The loop ends after the line that is number `i`.
abbrev pub is_last : (num_records : ℤ) → (i : ℕ) → Bool
is_last num_records i = leb_ℤ num_records (pos i) && not (leb_ℤ num_records (pos 0))

-- From line `i` on: the records, and what is left in the stream. None: the fuel has run out.
unfoldable pub load_lines :
    ℕ → (num_fields : ℕ) → (num_records : ℤ) → (i : ℕ) → Text → Option (Records × Text)
load_lines zero num_fields num_records i infile = none
load_lines (suc k) num_fields num_records i infile = elim (getline 10 infile) [
  | none ↦ some ([], infile)
  | some (s, rest) ↦ do
    row ← record_of s
    let more = load_lines k num_fields num_records (suc i) rest
    (kept, left) ← (if is_last num_records (suc i) then some ([], rest) else more)
    some (keep num_fields row kept, left)
]

-- Every line takes a character at least.
unfoldable pub load_file : Text → (num_fields : ℕ) → (num_records : ℤ) → Option (Records × Text)
load_file infile num_fields num_records =
    load_lines (suc (length infile)) num_fields num_records 0 infile

-- The same loop over mapped memory, where only a line that ends is a line.
unfoldable pub load_mmap_lines :
    ℕ → (num_fields : ℕ) → (num_records : ℤ) → (i : ℕ) → Text → Option Records
load_mmap_lines zero num_fields num_records i begin = none
load_mmap_lines (suc k) num_fields num_records i begin = elim (memchr_line begin) [
  | none ↦ some []
  | some (s, rest) ↦ do
    row ← record_of s
    let more = load_mmap_lines k num_fields num_records (suc i) rest
    kept ← (if is_last num_records (suc i) then some [] else more)
    some (keep num_fields row kept)
]

-- `mmap_data` is the whole file, at every call.
unfoldable pub load_mmap_file : Text → (num_fields : ℕ) → (num_records : ℤ) → Option Records
load_mmap_file mmap_data num_fields num_records =
    load_mmap_lines (suc (length mmap_data)) num_fields num_records 0 mmap_data
