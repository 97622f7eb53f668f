-- ===== src/PerformanceTests/Peers.antt =====
-- src/performanceTests.cpp, `eventHandlerTest`: the connections that it makes up.
use mimic_generator.Common.{
  ℕ, zero, suc, ◌+◌, ◌-◌, ◌/◌, ◌%◌, ◌≤◌, ◌<◌, ◌≡◌, refl, ◌∙◌, some, true, false, [], ◌∷◌, arith,
}
use native.Mathlib.Decide.{ℕ_discrete}
use mimic_generator.Common.Int.{ℤ, pos, ◌==ℤ◌}
use mimic_generator.Common.Maps.{Map, Text, find, insert, find-insert, int_eq}
use mimic_generator.Connections.{Inet, ConnectionPair, connection_pair}
use mimic_generator.PerformanceTests.{Role, server, client}

abbrev pub connections : ℕ
connections = 40

abbrev pub servers : ℕ
servers = connections / 10

abbrev pub test_ip : ℕ → Text
test_ip d = b'1' ∷ b'0' ∷ b'.' ∷ b'1' ∷ b'.' ∷ b'1' ∷ b'.' ∷ d ∷ []

-- `src` and `dst`, by what `myIP` and `remoteHost` are set to.
abbrev pub hosts : Role → (remote_host : Text) → Text × Text
hosts server remote_host =
    let my_ip = test_ip b'2' in let remote_host = test_ip b'3' in (remote_host, my_ip)
hosts client remote_host =
    let my_ip = test_ip b'3' in let remote_host = test_ip b'2' in (my_ip, remote_host)

module _ (inet : Inet) (stale_src stale_dst : ℕ) (rand : ℕ → ℕ) (role : Role)
    (remote_host : Text) where
  -- The connection of turn `i`, where `rand` answers `rand i`.
  abbrev pub made_up : ℕ → ConnectionPair
  made_up i =
      let (src, dst) = hosts role remote_host in
      connection_pair inet stale_src stale_dst src (pos (5000 + rand i % (servers - 1))) dst
        (pos (5000 + i))

  -- `n` turns of the loop, from the turn `i` on.
  unfoldable pub make_up : (n i : ℕ) → Map ℤ ConnectionPair → Map ℤ ConnectionPair
  make_up zero i conns = conns
  make_up (suc n) i conns = make_up n (suc i) (insert (pos i) (made_up i) conns)

  make_up-before :
      (n i j : ℕ) (conns : Map ℤ ConnectionPair)
      → j < i
      → find (pos j) (make_up n i conns) ≡ find (pos j) conns
  unfolding make_up
  make_up-before zero i j conns lt = refl
  make_up-before (suc n) i j conns lt =
      let other : (pos i ==ℤ pos j) ≡ false = ground arith in
      make_up-before n (suc i) j (insert (pos i) (made_up i) conns) (omega arith)
      ∙ find-insert (pos i) (pos j) (made_up i) conns
      ∙ rw other refl

  -- Each turn of the loop leaves its connection in the map, under its number.
  pub find-make_up :
      (n i j : ℕ) (conns : Map ℤ ConnectionPair)
      → i ≤ j
      → j < i + n
      → find (pos j) (make_up n i conns) ≡ some (made_up j)
  unfolding make_up
  find-make_up zero i j conns lo hi = absurd (omega arith)
  find-make_up (suc n) i j conns lo hi = elim (ℕ_discrete i j) [
    | yes same ↦
        let here : (pos j ==ℤ pos j) ≡ true = ground arith in
        rw same (
          make_up-before n (suc j) j (insert (pos j) (made_up j) conns) (omega arith)
          ∙ find-insert (pos j) (pos j) (made_up j) conns
          ∙ rw here refl)
    | no other ↦
        find-make_up n (suc i) j (insert (pos i) (made_up i) conns) (omega arith) (omega arith)
  ]

  -- The map that the EventHandler is given.
  abbrev pub made_up_map : Map ℤ ConnectionPair
  made_up_map = make_up connections 0 []
