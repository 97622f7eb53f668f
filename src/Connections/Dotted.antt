-- ===== src/Connections/Dotted.antt =====
-- Conversions of addresses to and from text that meet what is assumed of them: four decimal numbers
-- with dots between, of which only the one for 127.0.0.1 is read.
use mimic_generator.Common.{
  ℕ, ◌/◌, ◌%◌, ◌≡◌, ◌≢◌, none, some, [], ◌∷◌, ◌++◌, arith, All, if◌then◌else◌,
}
use mimic_generator.Common.Maps.{Text, text_eq}
use mimic_generator.Connections.{Inet}
use mimic_generator.Connections.Decimal.{decimal, decimal-injective, decimal-IsDigit}
use mimic_generator.Connections.Identity.{IsDotted, IsPlain, cut, All-imp}

-- The bytes of an address in network byte order, the first at the lowest address.
abbrev pub dotted_text : ℕ → Text
dotted_text a =
    decimal (a % 256)
    ++ b'.'
      ∷ (decimal (a / 256 % 256)
          ++ b'.' ∷ (decimal (a / 65536 % 256) ++ b'.' ∷ decimal (a / 16777216)))

dot_free : (n : ℕ) → All (λ c. c ≢ b'.') (decimal n)
dot_free n = All-imp (decimal n) (λ c d. omega arith) (decimal-IsDigit n)

IsPlain-digits : (n : ℕ) → All IsPlain (decimal n)
IsPlain-digits n = All-imp (decimal n) (λ c d. (omega arith, omega arith)) (decimal-IsDigit n)

All-append : (P : ℕ → Type 0) (xs ys : Text) → All P xs → All P ys → All P (xs ++ ys)
All-append P [] ys a b = b
All-append P (x ∷ xs) ys a b = (a.0, All-append P xs ys a.1 b)

dot-IsPlain : IsPlain b'.'
dot-IsPlain = (omega arith, omega arith)

dotted_text-IsPlain : (a : ℕ) → All IsPlain (dotted_text a)
dotted_text-IsPlain a = All-append IsPlain (decimal (a % 256)) _ (IsPlain-digits (a % 256)) (
  dot-IsPlain,
  All-append IsPlain (decimal (a / 256 % 256)) _ (IsPlain-digits (a / 256 % 256)) (
    dot-IsPlain,
    All-append IsPlain (decimal (a / 65536 % 256)) _ (IsPlain-digits (a / 65536 % 256))
        (dot-IsPlain, IsPlain-digits (a / 16777216)),
  ),
)

dot_cut : (m n : ℕ) (s t : Text) → decimal m ++ b'.' ∷ s ≡ decimal n ++ b'.' ∷ t → (m ≡ n) × (s ≡ t)
dot_cut m n s t e =
    let (d, rest) = cut b'.' (decimal m) (decimal n) s t (dot_free m) (dot_free n) e in
    (decimal-injective m n d, rest)

bytes_eq :
    (a b : ℕ)
    → a % 256 ≡ b % 256
    → a / 256 % 256 ≡ b / 256 % 256
    → a / 65536 % 256 ≡ b / 65536 % 256
    → a / 16777216 ≡ b / 16777216
    → a ≡ b
bytes_eq a b e₀ e₁ e₂ e₃ = omega arith

dotted_text-injective : (a b : ℕ) → dotted_text a ≡ dotted_text b → a ≡ b
dotted_text-injective a b e =
    let (e₀, r₀) = dot_cut (a % 256) (b % 256) _ _ e in
    let (e₁, r₁) = dot_cut (a / 256 % 256) (b / 256 % 256) _ _ r₀ in
    let (e₂, r₂) = dot_cut (a / 65536 % 256) (b / 65536 % 256) _ _ r₁ in
    bytes_eq a b e₀ e₁ e₂ (decimal-injective _ _ r₂)

abbrev pub loopback : ℕ
loopback = 16777343

abbrev pub dotted_inet : Inet
dotted_inet = record {
  pton = λ t. if text_eq t (dotted_text loopback) then some loopback else none;
  ntop = dotted_text;
}

pub dotted_inet-IsDotted : IsDotted dotted_inet
dotted_inet-IsDotted = record {
  plain = dotted_text-IsPlain;
  injective = λ a b la lb. dotted_text-injective a b;
}
