-- ===== src/Common/Lists.antt =====
-- Lists measured and indexed by native numbers, under the library's names.
use Prim.Native.Nat.{ℕ, zero, suc, ◌+◌, ◌<◌}
use mathlib.Core.Path.{◌≡◌, refl, ap, ap₂}
use mathlib.Core.List.{List, [], ◌∷◌, ◌++◌, map}
use mathlib.Core.Option.{Option, none, some, some-injective}
use native.Mathlib.Omega.{arith}

module _ {ℓ} {A : Type ℓ} where
  abbrev pub length : List A → ℕ
  length [] = 0
  length (x ∷ xs) = suc (length xs)

  abbrev pub get_elem? : List A → ℕ → Option A
  get_elem? [] i = none
  get_elem? (x ∷ xs) zero = some x
  get_elem? (x ∷ xs) (suc i) = get_elem? xs i

  abbrev pub take : ℕ → List A → List A
  take zero xs = []
  take (suc n) [] = []
  take (suc n) (x ∷ xs) = x ∷ take n xs

  abbrev pub drop : ℕ → List A → List A
  drop zero xs = xs
  drop (suc n) [] = []
  drop (suc n) (x ∷ xs) = drop n xs

  -- A predicate of every item, which computes to tuples.
  abbrev pub All {κ} : (A → Type κ) → List A → Type κ
  All P [] = Unit
  All P (x ∷ xs) = P x × All P xs

module _ {ℓ} {A : Type ℓ} where
  pub length-append : (xs ys : List A) → length (xs ++ ys) ≡ length xs + length ys
  length-append [] ys = omega arith
  length-append (x ∷ xs) ys = omega (arith, length-append xs ys)

  pub take-append-drop : (n : ℕ) (xs : List A) → take n xs ++ drop n xs ≡ xs
  take-append-drop zero xs = refl
  take-append-drop (suc n) [] = refl
  take-append-drop (suc n) (x ∷ xs) = ap (◌∷◌ x) (take-append-drop n xs)

  pub length-take : (n : ℕ) (xs : List A) → n < suc (length xs) → length (take n xs) ≡ n
  length-take zero xs h = refl
  length-take (suc n) [] h = absurd (omega arith)
  length-take (suc n) (x ∷ xs) h = ap suc (length-take n xs (omega arith))

  pub take-length : (xs : List A) → take (length xs) xs ≡ xs
  take-length [] = refl
  take-length (x ∷ xs) = ap (◌∷◌ x) (take-length xs)

  pub take-append : (n : ℕ) (xs ys : List A) → n < suc (length xs) → take n (xs ++ ys) ≡ take n xs
  take-append zero xs ys h = refl
  take-append (suc n) [] ys h = absurd (omega arith)
  take-append (suc n) (x ∷ xs) ys h = ap (◌∷◌ x) (take-append n xs ys (omega arith))

  -- One more item is taken.
  pub take-suc :
      (n : ℕ) (xs : List A) (a : A)
      → get_elem? xs n ≡ some a
      → take (suc n) xs ≡ take n xs ++ a ∷ []
  take-suc n [] a e = cc
  take-suc zero (x ∷ xs) a e = cc
  take-suc (suc n) (x ∷ xs) a e = ap (◌∷◌ x) (take-suc n xs a e)

  pub get_elem?-append_lt :
      (xs ys : List A) (n : ℕ) → n < length xs → get_elem? (xs ++ ys) n ≡ get_elem? xs n
  get_elem?-append_lt [] ys n h = absurd (omega arith)
  get_elem?-append_lt (x ∷ xs) ys zero h = refl
  get_elem?-append_lt (x ∷ xs) ys (suc n) h = get_elem?-append_lt xs ys n (omega arith)

  pub get_elem?-append_last : (xs : List A) (a : A) → get_elem? (xs ++ a ∷ []) (length xs) ≡ some a
  get_elem?-append_last [] a = refl
  get_elem?-append_last (x ∷ xs) a = get_elem?-append_last xs a

  pub get_elem?-some : (xs : List A) (n : ℕ) → n < length xs → (a : A) × (get_elem? xs n ≡ some a)
  get_elem?-some [] n h = absurd (omega arith)
  get_elem?-some (x ∷ xs) zero h = (x, refl)
  get_elem?-some (x ∷ xs) (suc n) h = get_elem?-some xs n (omega arith)

  pub length-map {κ} : {B : Type κ} (f : A → B) (xs : List A) → length (map f xs) ≡ length xs
  length-map f [] = refl
  length-map f (x ∷ xs) = ap suc (length-map f xs)

  -- What is left begins with the next item.
  pub drop-cons :
      (n : ℕ) (xs : List A) (a : A) → get_elem? xs n ≡ some a → drop n xs ≡ a ∷ drop (suc n) xs
  drop-cons n [] a e = cc
  drop-cons zero (x ∷ xs) a e = cc
  drop-cons (suc n) (x ∷ xs) a e = drop-cons n xs a e

  pub map-drop {κ} :
      {B : Type κ} (f : A → B) (n : ℕ) (xs : List A) → drop n (map f xs) ≡ map f (drop n xs)
  map-drop f zero xs = refl
  map-drop f (suc n) [] = refl
  map-drop f (suc n) (x ∷ xs) = map-drop f n xs

  pub drop-append : (xs ys : List A) → drop (length xs) (xs ++ ys) ≡ ys
  drop-append [] ys = refl
  drop-append (x ∷ xs) ys = drop-append xs ys

  pub get_elem?-drop :
      (n : ℕ) (xs : List A) (a : A) (ys : List A)
      → drop n xs ≡ a ∷ ys
      → (n < length xs) × (get_elem? xs n ≡ some a)
  get_elem?-drop zero [] a ys e = absurd (cc)
  get_elem?-drop (suc n) [] a ys e = absurd (cc)
  get_elem?-drop zero (x ∷ xs) a ys e = (omega arith, cc)
  get_elem?-drop (suc n) (x ∷ xs) a ys e =
      let (lt, at) = get_elem?-drop n xs a ys e in (omega arith, at)

  pub map-some-injective : (xs ys : List A) → map some xs ≡ map some ys → xs ≡ ys
  map-some-injective [] [] e = refl
  map-some-injective [] (y ∷ ys) e = absurd (cc)
  map-some-injective (x ∷ xs) [] e = absurd (cc)
  map-some-injective (x ∷ xs) (y ∷ ys) e =
      let heads : some x ≡ some y = cc in
      let tails : map some xs ≡ map some ys = cc in
      ap₂ ◌∷◌ (some-injective x y heads) (map-some-injective xs ys tails)
