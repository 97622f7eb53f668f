-- ===== src/FileWorker/Unended.antt =====
-- src/fileWorker.cpp, `loadMMapFile`: what it does with a last line that has no end.
use mimic_generator.Common.{
  ℕ, zero, suc, ◌<◌, ◌≡◌, refl, sym, ap, ◌∙◌, inl, inr, true, Option, none, some, [], ◌∷◌, ◌++◌,
  if◌then◌else◌, ◌==◌, length, length-append, ◌>>=◌, arith, Bool-cases,
}
use mimic_generator.Common.Int.{ℤ}
use mimic_generator.Common.Maps.{Text}
use mimic_generator.FileWorker.{
  until, memchr_line, record_of, keep, is_last, load_mmap_lines, load_mmap_file,
}
use mimic_generator.FileWorker.Records.{length-until, IsTerminated, IsTerminated-line, mmap_step}

-- The line that is found is the same with more text behind it.
memchr_line-append :
    (c : ℕ) (s t : Text)
    → IsTerminated (c ∷ s)
    → memchr_line (c ∷ s ++ t) ≡ some ((until 10 (c ∷ s)).0, (until 10 (c ∷ s)).1 ++ t)
memchr_line-append c [] t e = let ends : (c == 10) ≡ true = ground arith in rw ends refl
memchr_line-append c (d ∷ s) t e = elim (Bool-cases (c == 10)) [
  | inl ends ↦ rw ends refl
  | inr goes ↦ rw goes (
      ap (λ (o : Option (Text × Text)). elim o [ none ↦ none | some (l, r) ↦ some (c ∷ l, r) ])
        (memchr_line-append d s t e))
]

module _ (num_fields : ℕ) (num_records : ℤ) where
  lines-append :
      (k j i : ℕ) (s t : Text)
      → IsTerminated s
      → memchr_line t ≡ none
      → length (s ++ t) < k
      → length s < j
      → load_mmap_lines k num_fields num_records i (s ++ t)
        ≡ load_mmap_lines j num_fields num_records i s
  unfolding load_mmap_lines
  lines-append zero j i s t ends endless lt lt' = absurd (omega arith)
  lines-append (suc k) zero i s t ends endless lt lt' = absurd (omega arith)
  lines-append (suc k) (suc j) i [] t ends endless lt lt' =
      ap (mmap_step num_fields num_records k i) endless
  lines-append (suc k) (suc j) i (c ∷ s) t ends endless lt lt' =
      let (line, rest) = until 10 (c ∷ s) in
      let (found, ends') = IsTerminated-line c s ends in
      let shorter : length rest < length (c ∷ s) = length-until 10 c s in
      let same =
        lines-append k j (suc i) rest t ends' endless
          (omega (arith, length-append rest t, length-append s t)) (omega arith) in
      ap (mmap_step num_fields num_records k i) (memchr_line-append c s t ends)
      ∙ ap
          (λ more. record_of line >>= (λ row.
            (if is_last num_records (suc i) then some [] else more)
            >>= (λ kept. some (keep num_fields row kept))))
          same
      ∙ sym (ap (mmap_step num_fields num_records j i) found)

  -- If a text is empty or ends with the end of a line, and what is behind it has no end of a line,
  -- then `loadMMapFile` returns the same records with it as without it: the last line is not read.
  pub load_mmap_file-append :
      (s t : Text)
      → IsTerminated s
      → memchr_line t ≡ none
      → load_mmap_file (s ++ t) num_fields num_records ≡ load_mmap_file s num_fields num_records
  unfolding load_mmap_file
  load_mmap_file-append s t ends endless =
      lines-append (suc (length (s ++ t))) (suc (length s)) 0 s t ends endless (omega arith)
        (omega arith)
