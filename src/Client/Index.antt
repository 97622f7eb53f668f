-- ===== src/Client/Index.antt =====
-- src/basicClient.cpp: the index that `so_thread_entry` makes of its argument. `main` passes the
-- address of its loop variable, and the thread reads it as text with `atoi`.
use mimic_generator.Common.{
  ℕ, ◌+◌, ◌-◌, ◌*◌, ◌/◌, ◌%◌, ◌<◌, ◌≡◌, Bool, ◌&&◌, ◌||◌, [], ◌∷◌, ◌++◌, arith, if◌then◌else◌, ◌==◌,
  leb,
}
use mimic_generator.Common.Int.{ℤ, pos, sub_ℕ}
use mimic_generator.Common.Maps.{Text}

-- The bytes of an `int` that is not negative, on a little-endian host.
abbrev pub int_bytes : ℕ → Text
int_bytes i = i % 256 ∷ i / 256 % 256 ∷ i / 65536 % 256 ∷ i / 16777216 % 256 ∷ []

-- `isspace`
abbrev is_space : ℕ → Bool
is_space c = c == b' ' || (leb 9 c && leb c 13)

abbrev is_digit : ℕ → Bool
is_digit c = leb b'0' c && leb c b'9'

-- The number of the digits that a text begins with, from `n` on.
unfoldable pub digits : (n : ℕ) → Text → ℕ
digits n [] = n
digits n (c ∷ s) = let more = digits (n * 10 + (c - b'0')) s in if is_digit c then more else n

-- `atoi`, which reads on until a character is none of its number.
unfoldable pub atoi : Text → ℤ
unfolding digits
atoi [] = pos 0
atoi (c ∷ s) =
    let more = atoi s in
    if is_space c
    then more
    else if c == b'-'
    then sub_ℕ 0 (digits 0 s)
    else if c == b'+'
    then pos (digits 0 s)
    else pos (digits 0 (c ∷ s))

-- The index, by the value of the loop variable when the thread reads it and the memory behind it.
unfoldable pub worker_index : (i : ℕ) → (behind : Text) → ℤ
unfolding atoi
worker_index i behind = atoi (int_bytes i ++ behind)

-- Whatever is behind the loop variable in memory, and whichever of its values below 9 a thread reads,
-- the thread's index is 0. So all four threads wait on the epoll instance 0.
pub worker_index-zero : (i : ℕ) (behind : Text) → i < 9 → worker_index i behind ≡ pos 0
unfolding worker_index atoi digits
worker_index-zero i behind lt = let e : i % 256 ≡ i = omega arith in rw e (ground arith)
