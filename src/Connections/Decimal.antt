-- ===== src/Connections/Decimal.antt =====
-- The decimal digits that an output stream writes for a number.
use mimic_generator.Common.{
  ℕ, zero, suc, ◌+◌, ◌-◌, ◌*◌, ◌/◌, ◌%◌, ◌≤◌, ◌<◌, ◌≡◌, sym, ap, ◌∙◌, [], ◌∷◌, arith, ltb, All,
  if◌then◌else◌, Bool-cases, inl, inr,
}
use mimic_generator.Common.Maps.{Text}

-- The digits of `n` before `rest`, with fuel for them.
unfoldable pub digits_before : ℕ → ℕ → Text → Text
digits_before zero n rest = rest
digits_before (suc k) n rest =
    let more = digits_before k (n / 10) ((48 + n % 10) ∷ rest) in
    if ltb n 10 then (48 + n) ∷ rest else more

-- A number has no more digits than its successor counts.
unfoldable pub decimal : ℕ → Text
unfolding digits_before
decimal n = digits_before (suc n) n []

-- The number that digits stand for, after `acc`.
abbrev pub value : ℕ → Text → ℕ
value acc [] = acc
value acc (c ∷ s) = value (acc * 10 + (c - 48)) s

last_digit : (n : ℕ) → 0 * 10 + (48 + n - 48) ≡ n
last_digit n = omega arith

next_digit : (n : ℕ) → n / 10 * 10 + (48 + n % 10 - 48) ≡ n
next_digit n = omega arith

value-digits_before :
    (k n : ℕ) (rest : Text) → n < k → value 0 (digits_before k n rest) ≡ value n rest
unfolding digits_before
value-digits_before zero n rest h = absurd (omega arith)
value-digits_before (suc k) n rest h = elim (Bool-cases (ltb n 10)) [
  | inl small ↦ rw small (ap (λ m. value m rest) (last_digit n))
  | inr large ↦
      let less : n / 10 < k = ground arith in
      rw large (
        value-digits_before k (n / 10) ((48 + n % 10) ∷ rest) less
        ∙ ap (λ m. value m rest) (next_digit n))
]

-- The digits of a number determine it.
pub decimal-injective : (m n : ℕ) → decimal m ≡ decimal n → m ≡ n
unfolding decimal
decimal-injective m n e =
    sym (value-digits_before (suc m) m [] (omega arith))
    ∙ ap (value 0) e
    ∙ value-digits_before (suc n) n [] (omega arith)

abbrev pub IsDigit : ℕ → Type 0
IsDigit c = (48 ≤ c) × (c ≤ 57)

digits_before-IsDigit :
    (k n : ℕ) (rest : Text) → All IsDigit rest → All IsDigit (digits_before k n rest)
unfolding digits_before
digits_before-IsDigit zero n rest h = h
digits_before-IsDigit (suc k) n rest h = elim (Bool-cases (ltb n 10)) [
  | inl small ↦ rw small ((omega arith, ground arith), h)
  | inr large ↦ rw large (digits_before-IsDigit k (n / 10) _ ((omega arith, omega arith), h))
]

pub decimal-IsDigit : (n : ℕ) → All IsDigit (decimal n)
unfolding decimal
decimal-IsDigit n = digits_before-IsDigit (suc n) n [] tt
