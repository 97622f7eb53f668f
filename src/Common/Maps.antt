-- ===== src/Common/Maps.antt =====
-- std::unordered_map as an association list with a value for each key; the order of its items has no
-- meaning. Keys are compared through an instance.
use mathlib.Core.Path.{◌≡◌, refl}
use mathlib.Core.Logic.{◌↔◌, inl, inr}
use mathlib.Core.Bool.{Bool, true, false, ◌&&◌}
use mathlib.Core.Option.{Option, none, some}
use mathlib.Core.List.{List, [], ◌∷◌}
use Prim.Native.Nat.{ℕ}
use native.Mathlib.Omega.{arith}
use mimic_generator.Common.Tests.{if◌then◌else◌, ◌==◌, Bool-cases}
use mimic_generator.Common.Int.{ℤ, ◌==ℤ◌, ==ℤ_iff, ==ℤ_refl}

pub record Eq (K : Type 0) : Type 0 where
  pub beq : K → K → Bool
  pub beq_iff : (a b : K) → (beq a b ≡ true) ↔ (a ≡ b)

pub ==ℤ_both : (a b : ℤ) → ((a ==ℤ b) ≡ true) ↔ (a ≡ b)
==ℤ_both a b = (==ℤ_iff a b, λ e. ground (arith, ==ℤ_refl a))

instance abbrev pub int_eq : Eq ℤ
int_eq = record { beq = ◌==ℤ◌; beq_iff = ==ℤ_both }

-- std::string, by its character codes.
abbrev pub Text : Type 0
Text = List ℕ

abbrev pub text_eq : Text → Text → Bool
text_eq [] [] = true
text_eq (a ∷ s) (b ∷ t) = (a == b) && text_eq s t
text_eq _ _ = false

text_eq→eq : (s t : Text) → text_eq s t ≡ true → s ≡ t
text_eq→eq [] [] h = refl
text_eq→eq [] (b ∷ t) h = absurd (cc)
text_eq→eq (a ∷ s) [] h = absurd (cc)
text_eq→eq (a ∷ s) (b ∷ t) h = ground (arith, text_eq→eq s t)

text_eq_refl : (s : Text) → text_eq s s ≡ true
text_eq_refl [] = refl
text_eq_refl (a ∷ s) = ground (arith, text_eq_refl s)

pub text_eq_iff : (s t : Text) → (text_eq s t ≡ true) ↔ (s ≡ t)
text_eq_iff s t = (text_eq→eq s t, λ e. rw e (text_eq_refl t))

instance abbrev pub text_eq_instance : Eq Text
text_eq_instance = record { beq = text_eq; beq_iff = text_eq_iff }

abbrev pub Map : Type 0 → Type 0 → Type 0
Map K V = List (K × V)

pub beq_refl : {K : Type 0} ⦃eq : Eq K⦄ (k : K) → eq.beq k k ≡ true
beq_refl ⦃eq⦄ k = (eq.beq_iff k k).1 refl

module _ {K V : Type 0} ⦃eq : Eq K⦄ where
  -- `find`: none is the end iterator.
  unfoldable pub find : K → Map K V → Option V
  find k [] = none
  find k ((j, v) ∷ m) = if eq.beq j k then some v else find k m

  -- `m[k] = v`
  unfoldable pub insert : K → V → Map K V → Map K V
  insert k v [] = (k, v) ∷ []
  insert k v ((j, w) ∷ m) = if eq.beq j k then (j, v) ∷ m else (j, w) ∷ insert k v m

  -- `erase`
  unfoldable pub remove : K → Map K V → Map K V
  remove k [] = []
  remove k ((j, w) ∷ m) = if eq.beq j k then remove k m else (j, w) ∷ remove k m

  -- The value that `m[k]` reads, `d` if it inserts the key.
  unfoldable pub find_or : V → K → Map K V → V
  find_or d k m = elim (find k m) [ none ↦ d | some v ↦ v ]

  pub find-insert :
      (k j : K) (v : V) (m : Map K V)
      → find j (insert k v m) ≡ (if eq.beq k j then some v else find j m)
  unfolding find insert
  find-insert k j v [] = refl
  find-insert k j v ((i, w) ∷ m) =
      ground (arith, eq.beq_iff i k, eq.beq_iff i j, eq.beq_iff k j, find-insert k j v m)

  pub find-insert_self : (k : K) (v : V) (m : Map K V) → find k (insert k v m) ≡ some v
  find-insert_self k v m = rw (find-insert k k v m, beq_refl k)

  -- A key that is found stays one.
  pub find-insert-some :
      (k j : K) (v d : V) (m : Map K V)
      → find j m ≡ some d
      → (d' : V) × (find j (insert k v m) ≡ some d')
  find-insert-some k j v d m e = elim (Bool-cases (eq.beq k j)) [
    | inl same ↦ (v, rw (find-insert k j v m, same) refl)
    | inr other ↦ (d, rw (find-insert k j v m, other) e)
  ]

  pub find-remove_self : (k : K) (m : Map K V) → find k (remove k m) ≡ none
  unfolding find remove
  find-remove_self k [] = refl
  find-remove_self k ((i, w) ∷ m) = ground (arith, find-remove_self k m)
