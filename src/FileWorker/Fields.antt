-- ===== src/FileWorker/Fields.antt =====
-- src/fileWorker.cpp: the fields of a line that is written with commas between them.
use mimic_generator.Common.{
  ℕ, zero, suc, ◌<◌, ◌≡◌, ◌≢◌, refl, ap, ◌∙◌, false, true, Option, none, some, List, [], ◌∷◌, ◌++◌,
  ◌==◌, length, map, All, ◌>>=◌, arith, length-append,
}
use mimic_generator.Common.Maps.{Text}
use mimic_generator.FileWorker.{trim, until, getline, fields, record_of}

-- The fields with commas between them.
abbrev pub join : List Text → Text
join [] = []
join (f ∷ []) = f
join (f ∷ g ∷ fs) = f ++ b',' ∷ join (g ∷ fs)

abbrev pub CommaFree : Text → Type 0
CommaFree = All (λ c. c ≢ b',')

-- No field holds a comma, and the last one is not empty.
abbrev pub AreFields : List Text → Type 0
AreFields [] = Unit
AreFields (f ∷ []) = CommaFree f × (f ≢ [])
AreFields (f ∷ g ∷ fs) = CommaFree f × AreFields (g ∷ fs)

pub until-append :
    (delim : ℕ) (f s : Text) → All (λ c. c ≢ delim) f → until delim (f ++ delim ∷ s) ≡ (f, s)
until-append delim [] s free = let here : (delim == delim) ≡ true = ground arith in rw here refl
until-append delim (c ∷ f) s free =
    let other : (c == delim) ≡ false = ground (arith, free.0) in
    rw other (ap (λ (q : Text × Text). (c ∷ q.0, q.1)) (until-append delim f s free.1))

until-end : (f : Text) → CommaFree f → until b',' f ≡ (f, [])
until-end [] free = refl
until-end (c ∷ f) free =
    let other : (c == b',') ≡ false = ground (arith, free.0) in
    rw other (ap (λ (q : Text × Text). (c ∷ q.0, q.1)) (until-end f free.1))

getline-comma : (f s : Text) → CommaFree f → getline b',' (f ++ b',' ∷ s) ≡ some (f, s)
getline-comma [] s free = refl
getline-comma (c ∷ f) s free = ap some (until-append b',' (c ∷ f) s free)

getline-end : (f : Text) → CommaFree f → f ≢ [] → getline b',' f ≡ some (f, [])
getline-end [] free ne = absurd (ne refl)
getline-end (c ∷ f) free ne = ap some (until-end (c ∷ f) free)

step : ℕ → Option (Text × Text) → Option (List Text)
step k none = some []
step k (some (s, rest)) = fields k rest >>= (λ more. some (trim s ∷ more))

fields-step : (k : ℕ) (ss : Text) → fields (suc k) ss ≡ step k (getline b',' ss)
unfolding fields step
fields-step k [] = refl
fields-step k (c ∷ s) = refl

empty_of_short : (f : Text) → length f < 1 → f ≡ []
empty_of_short [] lt = refl
empty_of_short (c ∷ f) lt = absurd (omega arith)

fields-join :
    (k : ℕ) (fs : List Text)
    → AreFields fs
    → length (join fs) < k
    → fields k (join fs) ≡ some (map trim fs)
unfolding step
fields-join zero fs are lt = absurd (omega arith)
fields-join (suc k) [] are lt = fields-step k []
fields-join (suc zero) (f ∷ []) (free, ne) lt = absurd (ne (empty_of_short f lt))
fields-join (suc (suc k)) (f ∷ []) (free, ne) lt =
    fields-step (suc k) f
    ∙ ap (step (suc k)) (getline-end f free ne)
    ∙ ap (λ o. o >>= (λ more. some (trim f ∷ more))) (fields-step k [])
fields-join (suc k) (f ∷ g ∷ fs) (free, are) lt =
    fields-step k (join (f ∷ g ∷ fs))
    ∙ ap (step k) (getline-comma f (join (g ∷ fs)) free)
    ∙ ap (λ o. o >>= (λ more. some (trim f ∷ more)))
        (fields-join k (g ∷ fs) are (omega (arith, length-append f (b',' ∷ join (g ∷ fs)))))

-- The fields of a line are those that were written with commas between them, trimmed: if none holds
-- a comma and the last is not empty.
pub record_of-join : (fs : List Text) → AreFields fs → record_of (join fs) ≡ some (map trim fs)
unfolding record_of
record_of-join fs are = fields-join (suc (length (join fs))) fs are (omega arith)
