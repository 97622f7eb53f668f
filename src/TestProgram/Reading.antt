-- ===== src/TestProgram/Reading.antt =====
-- src/test.cpp, `readFromSocket`: what is counted of a stream of answers.
use mimic_generator.Common.{
  ℕ, zero, suc, ◌+◌, ◌^◌, ◌<◌, ◌≡◌, refl, ap, ◌∙◌, not, Bool, true, false, some, List, [], ◌∷◌,
  arith, length,
}
use mimic_generator.Common.Int.{ℤ, pos, negsuc, ◌==ℤ◌, ◌+ℤ◌, to_int, to_int-id, +ℤ_pos}
use mimic_generator.Os.{Os, Call, History}
use mimic_generator.TestProgram.{read_from, read_from_socket}

-- The last answer: an error, which may be that there is nothing to read now, or the end of the stream.
pub data Last : Type 0 where
  failed ended : Last

abbrev pub answer : Last → ℤ
answer failed = negsuc 0
answer ended = pos 0

-- So many bytes, in several reads.
abbrev pub total : List ℕ → ℕ
total [] = 0
total (n ∷ ns) = n + total ns

module _ (os : Os) (sockfd : ℤ) where
  abbrev pub a_read : Call
  a_read = Call.read sockfd 10

  -- The reads after `h` answer these counts, and then the last answer.
  abbrev pub Answers : List ℕ → Last → History → Type 0
  Answers [] last h = os.result h a_read ≡ answer last
  Answers (n ∷ ns) last h = (0 < n) × (os.result h a_read ≡ pos n) × Answers ns last (a_read ∷ h)

  -- The calls after as many reads.
  abbrev pub reads : List ℕ → History → History
  reads [] h = h
  reads (n ∷ ns) h = reads ns (a_read ∷ h)

  -- The stream is done after the last answer.
  abbrev pub is_done : Last → History → Bool
  is_done failed h = not (os.errno h a_read ==ℤ pos 11)
  is_done ended h = true

  read_from-last :
      (last : Last) (k : ℕ) (count : ℤ) (h : History)
      → os.result h a_read ≡ answer last
      → read_from os (suc k) sockfd count h ≡ some (count, is_done last h, a_read ∷ h)
  unfolding read_from to_int
  read_from-last failed k count h at = rw at refl
  read_from-last ended k count h at = rw at refl

  read_from-more :
      (n k : ℕ) (count : ℤ) (h : History)
      → 0 < n
      → n < 2 ^ 31
      → os.result h a_read ≡ pos n
      → read_from os (suc k) sockfd count h
        ≡ read_from os k sockfd (to_int (count +ℤ pos n)) (a_read ∷ h)
  unfolding read_from
  read_from-more n k count h gt lt at =
      let other : (pos n ==ℤ negsuc 0) ≡ false = ground arith in
      let more : (pos n ==ℤ pos 0) ≡ false = ground arith in
      rw (at, to_int-id n lt, other, more) refl

  read_from-total :
      (ns : List ℕ) (last : Last) (k c : ℕ) (h : History)
      → Answers ns last h
      → c + total ns < 2 ^ 31
      → length ns < k
      → read_from os k sockfd (pos c) h
        ≡ some (pos (c + total ns), is_done last (reads ns h), a_read ∷ reads ns h)
  read_from-total ns last zero c h ans lt enough = absurd (omega arith)
  read_from-total [] last (suc k) c h ans lt enough =
      let none_left : c + 0 ≡ c = omega arith in rw none_left (read_from-last last k (pos c) h ans)
  read_from-total (n ∷ ns) last (suc k) c h (gt, at, ans) lt enough =
      let sum : to_int (pos c +ℤ pos n) ≡ pos (c + n) =
        ap to_int (+ℤ_pos c n) ∙ to_int-id (c + n) (omega arith) in
      let all : c + n + total ns ≡ c + (n + total ns) = omega arith in
      read_from-more n k (pos c) h gt (omega arith) at
      ∙ ap (λ z. read_from os k sockfd z (a_read ∷ h)) sum
      ∙ rw all at (read_from-total ns last k (c + n) (a_read ∷ h) ans (omega arith) (omega arith))

  -- If the reads of a socket answer positive counts, fewer than 2 ^ 31 bytes together, and then an
  -- error or the end of the stream, readFromSocket with more fuel than there are counts returns their
  -- sum, after one read more. The stream is done then, except if there was nothing to read.
  pub read_from_socket-total :
      (ns : List ℕ) (last : Last) (k : ℕ) (h : History)
      → Answers ns last h
      → total ns < 2 ^ 31
      → length ns < k
      → read_from_socket os k sockfd h
        ≡ some (pos (total ns), is_done last (reads ns h), a_read ∷ reads ns h)
  unfolding read_from_socket
  read_from_socket-total ns last k h ans lt enough =
      let from_zero : 0 + total ns ≡ total ns = omega arith in
      rw from_zero at (read_from-total ns last k 0 h ans (omega arith) enough)
