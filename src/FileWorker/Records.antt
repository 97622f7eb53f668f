-- ===== src/FileWorker/Records.antt =====
-- src/fileWorker.cpp: the two ways to read a file agree, and read what is written.
use mimic_generator.Common.{
  ℕ, zero, suc, ◌<◌, ◌≡◌, refl, ap, ◌∙◌, inl, inr, true, Option, none, some, List, [], ◌∷◌,
  if◌then◌else◌, ◌==◌, length, ◌>>=◌, arith, Bool-cases,
}
use mimic_generator.Common.Int.{ℤ}
use mimic_generator.Common.Maps.{Text}
use mimic_generator.FileWorker.{
  trim, until, memchr_line, fields, record_of, Records, keep, is_last, load_lines, load_file,
  load_mmap_lines, load_mmap_file,
}

pub length-until : (d c : ℕ) (s : Text) → length (until d (c ∷ s)).1 < length (c ∷ s)
length-until d c [] = ground arith
length-until d c (e ∷ s) = ground (arith, length-until d e s)

-- The fields of a line are found within the fuel.
fields-returns : (k : ℕ) (ss : Text) → length ss < k → (r : List Text) × (fields k ss ≡ some r)
unfolding fields
fields-returns zero ss lt = absurd (omega arith)
fields-returns (suc k) [] lt = ([], refl)
fields-returns (suc k) (c ∷ s) lt =
    let (s', rest) = until b',' (c ∷ s) in
    let (more, e) = fields-returns k rest (omega (arith, length-until b',' c s)) in
    (trim s' ∷ more, ap (λ o. o >>= (λ fs. some (trim s' ∷ fs))) e)

-- The text is empty or ends with the end of a line.
abbrev pub IsTerminated : Text → Type 0
IsTerminated [] = Unit
IsTerminated (c ∷ []) = c ≡ 10
IsTerminated (c ∷ d ∷ s) = IsTerminated (d ∷ s)

pub IsTerminated-line :
    (c : ℕ) (s : Text)
    → IsTerminated (c ∷ s)
    → (memchr_line (c ∷ s) ≡ some (until 10 (c ∷ s))) × IsTerminated (until 10 (c ∷ s)).1
IsTerminated-line c [] e = let ends : (c == 10) ≡ true = ground arith in rw ends (refl, tt)
IsTerminated-line c (d ∷ s) t = elim (Bool-cases (c == 10)) [
  | inl ends ↦ rw ends (refl, t)
  | inr goes ↦
      let (e, t') = IsTerminated-line d s t in
      rw goes (
        ap (λ (o : Option (Text × Text)). elim o [ none ↦ none | some (l, r) ↦ some (c ∷ l, r) ]) e,
        t',
      )
]

pub record_of-returns : (line : Text) → (row : List Text) × (record_of line ≡ some row)
unfolding record_of
record_of-returns line = fields-returns (suc (length line)) line (omega arith)

-- What one line adds to the records and the text that is left.
abbrev pub with_line : ℕ → List Text → Records × Text → Option (Records × Text)
with_line num_fields row (kept, left) = some (keep num_fields row kept, left)

module _ (num_fields : ℕ) (num_records : ℤ) where
  pub load_lines-line :
      (k i c : ℕ) (s : Text) (row : List Text)
      → record_of (until 10 (c ∷ s)).0 ≡ some row
      → load_lines (suc k) num_fields num_records i (c ∷ s) ≡ (
          (if is_last num_records (suc i)
            then some ([], (until 10 (c ∷ s)).1)
            else load_lines k num_fields num_records (suc i) (until 10 (c ∷ s)).1)
          >>= with_line num_fields row)
  unfolding load_lines
  load_lines-line k i c s row e =
      ap
        (λ o. o >>= (λ row.
          (if is_last num_records (suc i)
            then some ([], (until 10 (c ∷ s)).1)
            else load_lines k num_fields num_records (suc i) (until 10 (c ∷ s)).1)
          >>= with_line num_fields row))
        e

  -- What follows where a line has been read.
  abbrev mmap_rest : ℕ → ℕ → Text → List Text → Option Records
  mmap_rest k i rest row =
      (if is_last num_records (suc i)
        then some []
        else load_mmap_lines k num_fields num_records (suc i) rest)
      >>= (λ kept. some (keep num_fields row kept))

  abbrev pub mmap_step : ℕ → ℕ → Option (Text × Text) → Option Records
  mmap_step k i none = some []
  mmap_step k i (some (s, rest)) = record_of s >>= mmap_rest k i rest

  load_mmap_lines-line :
      (k i c : ℕ) (s : Text) (row : List Text)
      → IsTerminated (c ∷ s)
      → record_of (until 10 (c ∷ s)).0 ≡ some row
      → load_mmap_lines (suc k) num_fields num_records i (c ∷ s) ≡ (
          (if is_last num_records (suc i)
            then some []
            else load_mmap_lines k num_fields num_records (suc i) (until 10 (c ∷ s)).1)
          >>= (λ kept. some (keep num_fields row kept)))
  unfolding load_mmap_lines
  load_mmap_lines-line k i c s row t e =
      let rest = (until 10 (c ∷ s)).1 in
      ap (mmap_step k i) (IsTerminated-line c s t).0 ∙ ap (λ o. o >>= mmap_rest k i rest) e

  Agree : Text → Option (Records × Text) → Option Records → Type 0
  Agree s o m = (kept : Records) × (left : Text) × (o ≡ some (kept, left)) × (m ≡ some kept)

  lines-Agree :
      (k i : ℕ) (s : Text)
      → IsTerminated s
      → length s < k
      → Agree s
          (load_lines k num_fields num_records i s)
          (load_mmap_lines k num_fields num_records i s)
  unfolding Agree load_lines load_mmap_lines
  lines-Agree zero i s t lt = absurd (omega arith)
  lines-Agree (suc k) i [] t lt = ([], [], refl, refl)
  lines-Agree (suc k) i (c ∷ s) t lt =
      let rest = (until 10 (c ∷ s)).1 in
      let (row, e) = record_of-returns (until 10 (c ∷ s)).0 in
      let p = load_lines-line k i c s row e in
      let q = load_mmap_lines-line k i c s row t e in
      elim (Bool-cases (is_last num_records (suc i))) [
        | inl ends ↦ (keep num_fields row [], rest, p ∙ rw ends refl, q ∙ rw ends refl)
        | inr goes ↦
            let (kept, left, o, m) =
              lines-Agree k (suc i) rest (IsTerminated-line c s t).1
                (omega (arith, length-until 10 c s)) in
            (keep num_fields row kept, left, p ∙ rw (goes, o) refl, q ∙ rw (goes, m) refl)
      ]

  -- If the text is empty or ends with the end of a line, then `loadFile` and `loadMMapFile` return,
  -- and return the same records for it.
  pub load_file-load_mmap_file :
      (s : Text)
      → IsTerminated s
      → (kept : Records) × (left : Text) × (load_file s num_fields num_records ≡ some (kept, left))
        × (load_mmap_file s num_fields num_records ≡ some kept)
  unfolding load_file load_mmap_file Agree
  load_file-load_mmap_file s t = lines-Agree (suc (length s)) 0 s t (omega arith)
