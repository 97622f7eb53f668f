-- ===== src/FileWorker/Trim.antt =====
-- src/fileWorker.cpp, `trim`: the text between the blanks.
use mimic_generator.Common.{
  ℕ, suc, ◌+◌, ◌-◌, ◌≡◌, refl, sym, ap, ◌∙◌, false, true, Option, none, some, [], ◌∷◌, ◌++◌,
  if◌then◌else◌, length, take, drop, All, arith, take-append, take-length, drop-append,
}
use mathlib.Core.List.{append-nil}
use mimic_generator.Common.Maps.{Text}
use mimic_generator.FileWorker.{is_blank, find_first_not_blank, find_last_not_blank, trim}

abbrev pub AreBlank : Text → Type 0
AreBlank = All (λ c. is_blank c ≡ true)

abbrev pub EndsNonBlank : Text → Type 0
EndsNonBlank [] = Unit
EndsNonBlank (c ∷ []) = is_blank c ≡ false
EndsNonBlank (c ∷ d ∷ s) = EndsNonBlank (d ∷ s)

-- The text is empty, or neither its first nor its last character is blank.
abbrev pub IsTrimmed : Text → Type 0
IsTrimmed [] = Unit
IsTrimmed (c ∷ s) = (is_blank c ≡ false) × EndsNonBlank (c ∷ s)

find_first-blank : (a : Text) → AreBlank a → find_first_not_blank a ≡ none
find_first-blank [] blank = refl
find_first-blank (c ∷ a) (is, blank) = rw is (
    ap (λ (o : Option ℕ). elim o [ none ↦ none | some i ↦ some (suc i) ])
      (find_first-blank a blank))

find_first-append :
    (a : Text) (c : ℕ) (s : Text)
    → AreBlank a
    → is_blank c ≡ false
    → find_first_not_blank (a ++ c ∷ s) ≡ some (length a)
find_first-append [] c s blank ink = rw ink refl
find_first-append (d ∷ a) c s (is, blank) ink = rw is (
    ap (λ (o : Option ℕ). elim o [ none ↦ none | some i ↦ some (suc i) ])
      (find_first-append a c s blank ink))

-- The search from the end, in a text with one more character before it.
last_of : ℕ → Option ℕ → Option ℕ
last_of c none = if is_blank c then none else some 0
last_of c (some i) = some (suc i)

find_last-cons :
    (c : ℕ) (s : Text) → find_last_not_blank (c ∷ s) ≡ last_of c (find_last_not_blank s)
unfolding last_of
find_last-cons c s =
    elim (find_last_not_blank s)
      as (λ o.
        (elim o [ none ↦ if is_blank c then none else some 0 | some i ↦ some (suc i) ])
        ≡ last_of c o) [ none ↦ refl | some i ↦ refl ]

find_last-blank : (b : Text) → AreBlank b → find_last_not_blank b ≡ none
unfolding last_of
find_last-blank [] blank = refl
find_last-blank (c ∷ b) (is, blank) =
    find_last-cons c b ∙ ap (last_of c) (find_last-blank b blank) ∙ rw is refl

find_last-EndsNonBlank :
    (c : ℕ) (s b : Text)
    → EndsNonBlank (c ∷ s)
    → AreBlank b
    → find_last_not_blank (c ∷ s ++ b) ≡ some (length s)
unfolding last_of
find_last-EndsNonBlank c [] b ink blank =
    find_last-cons c b ∙ ap (last_of c) (find_last-blank b blank) ∙ rw ink refl
find_last-EndsNonBlank c (d ∷ s) b ink blank =
    find_last-cons c (d ∷ s ++ b) ∙ ap (last_of c) (find_last-EndsNonBlank d s b ink blank)

find_last-append :
    (a s : Text) (i : ℕ)
    → find_last_not_blank s ≡ some i
    → find_last_not_blank (a ++ s) ≡ some (length a + i)
unfolding last_of
find_last-append [] s i e = e ∙ ap some (omega arith)
find_last-append (c ∷ a) s i e =
    find_last-cons c (a ++ s) ∙ ap (last_of c) (find_last-append a s i e) ∙ ap some (omega arith)

-- What `trim` takes between the two characters that are found.
cut : Text → Option ℕ → Option ℕ → Text
cut s none l = []
cut s (some i) none = []
cut s (some i) (some j) = take (j - i + 1) (drop i s)

trim-cut : (s : Text) → trim s ≡ cut s (find_first_not_blank s) (find_last_not_blank s)
unfolding trim cut
trim-cut s = by_ends (find_first_not_blank s) (find_last_not_blank s)
  where
    by_ends :
        (f l : Option ℕ)
        → (elim f [
          | none ↦ []
          | some i ↦ elim l [ none ↦ [] | some j ↦ take (j - i + 1) (drop i s) ]
        ])
          ≡ cut s f l
    by_ends none l = refl
    by_ends (some i) none = refl
    by_ends (some i) (some j) = refl

cut-within :
    (a t b : Text) (n : ℕ)
    → length t ≡ suc n
    → cut (a ++ (t ++ b)) (some (length a)) (some (length a + n)) ≡ t
unfolding cut
cut-within a t b n e =
    let count : length a + n - length a + 1 ≡ length t = omega (arith, e) in
    rw (count, drop-append a (t ++ b)) (take-append (length t) t b (omega arith) ∙ take-length t)

AreBlank-append : (a b : Text) → AreBlank a → AreBlank b → AreBlank (a ++ b)
AreBlank-append [] b before behind = behind
AreBlank-append (c ∷ a) b (is, before) behind = (is, AreBlank-append a b before behind)

-- Around a text that is empty, or neither begins nor ends with a space or a tab, `trim` removes any
-- spaces and tabs, and returns the text.
pub trim-append : (a t b : Text) → AreBlank a → IsTrimmed t → AreBlank b → trim (a ++ (t ++ b)) ≡ t
unfolding cut
trim-append a [] b before is behind =
    trim-cut (a ++ b)
    ∙ ap (λ f. cut (a ++ b) f (find_last_not_blank (a ++ b)))
        (find_first-blank (a ++ b) (AreBlank-append a b before behind))
trim-append a (c ∷ t) b before (ink, ends) behind =
    trim-cut (a ++ (c ∷ t ++ b))
    ∙ ap (λ f. cut (a ++ (c ∷ t ++ b)) f (find_last_not_blank (a ++ (c ∷ t ++ b))))
        (find_first-append a c (t ++ b) before ink)
    ∙ ap (cut (a ++ (c ∷ t ++ b)) (some (length a)))
        (find_last-append a (c ∷ t ++ b) (length t) (find_last-EndsNonBlank c t b ends behind))
    ∙ cut-within a (c ∷ t) b (length t) refl

pub trim_id : (t : Text) → IsTrimmed t → trim t ≡ t
trim_id t is = ap trim (sym (append-nil t)) ∙ trim-append [] t [] tt is tt
