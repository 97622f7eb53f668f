-- ===== src/Connections/Identity.antt =====
-- The string of a connection stands for its two addresses.
use mathlib.Core.Path.{ap₂}
use mimic_generator.Common.{
  ℕ, ◌^◌, ◌<◌, ◌≡◌, refl, sym, ap, ◌∙◌, ◌≢◌, ◌↔◌, [], ◌∷◌, ◌++◌, arith, All, true,
}
use mimic_generator.Common.Maps.{Text}
use mimic_generator.Os.{SockAddr}
use mimic_generator.Connections.{
  Inet, ConnectionPair, af_inet, swap16, swap32, cmp_sock_addr_in, pair_eq, get_ip_port_string,
  get_conn_string,
}
use mimic_generator.Connections.Decimal.{decimal, decimal-injective, decimal-IsDigit}

-- What a text of `inet_ntop` holds: digits and dots, so no separator of a connection string.
abbrev pub IsPlain : ℕ → Type 0
IsPlain c = (c ≢ b':') × (c ≢ b',')

-- `inet_ntop` writes distinct addresses as distinct texts of digits and dots.
pub record IsDotted (inet : Inet) : Type 0 where
  pub plain : (a : ℕ) → All IsPlain (inet.ntop a)
  pub injective : (a b : ℕ) → a < 2 ^ 32 → b < 2 ^ 32 → inet.ntop a ≡ inet.ntop b → a ≡ b

-- An IPv4 address of the right size.
pub record IsInet (sa : SockAddr) : Type 0 where
  pub family : sa.family ≡ af_inet
  pub addr : sa.addr < 2 ^ 32
  pub port : sa.port < 2 ^ 16

-- Two texts that are equal up to their first separators are equal in each part.
pub cut :
    (c : ℕ) (xs xs' ys ys' : Text)
    → All (λ a. a ≢ c) xs
    → All (λ a. a ≢ c) xs'
    → xs ++ c ∷ ys ≡ xs' ++ c ∷ ys'
    → (xs ≡ xs') × (ys ≡ ys')
cut c [] [] ys ys' h h' e = (refl, cc)
cut c [] (x' ∷ xs') ys ys' h h' e = absurd (ground (arith, h'.0))
cut c (x ∷ xs) [] ys ys' h h' e = absurd (ground (arith, h.0))
cut c (x ∷ xs) (x' ∷ xs') ys ys' h h' e =
    let heads : x ≡ x' = cc in
    let tails : xs ++ c ∷ ys ≡ xs' ++ c ∷ ys' = cc in
    let (p, q) = cut c xs xs' ys ys' h.1 h'.1 tails in (ap₂ ◌∷◌ heads p, q)

pub All-imp : {P Q : ℕ → Type 0} (xs : Text) → ((c : ℕ) → P c → Q c) → All P xs → All Q xs
All-imp [] f h = tt
All-imp (x ∷ xs) f h = (f x h.0, All-imp xs f h.1)

swap16_twice : (n : ℕ) → n < 2 ^ 16 → swap16 (swap16 n) ≡ n
swap16_twice n h = omega arith

swap32_twice : (n : ℕ) → n < 2 ^ 32 → swap32 (swap32 n) ≡ n
swap32_twice n h = omega arith

colon_free : (n : ℕ) → All (λ c. c ≢ b':') (decimal n)
colon_free n = All-imp (decimal n) (λ c d. omega arith) (decimal-IsDigit n)

comma_free : (n : ℕ) → All (λ c. c ≢ b',') (decimal n)
comma_free n = All-imp (decimal n) (λ c d. omega arith) (decimal-IsDigit n)

swap16-injective : (m n : ℕ) → m < 2 ^ 16 → n < 2 ^ 16 → swap16 m ≡ swap16 n → m ≡ n
swap16-injective m n hm hn e = omega arith

sock_addr-eq : {a b : SockAddr} → IsInet a → IsInet b → a.addr ≡ b.addr → a.port ≡ b.port → a ≡ b
sock_addr-eq {a} {b} ia ib e p = ground arith

swap32-injective : (m n : ℕ) → m < 2 ^ 32 → n < 2 ^ 32 → swap32 m ≡ swap32 n → m ≡ n
swap32-injective m n hm hn e = sym (swap32_twice m hm) ∙ ap swap32 e ∙ swap32_twice n hn

pub cmp_sock_addr_in→eq :
    (a b : SockAddr) → IsInet a → IsInet b → cmp_sock_addr_in a b ≡ true → a ≡ b
unfolding cmp_sock_addr_in
cmp_sock_addr_in→eq a b ia ib e = ground (arith, swap32-injective a.addr b.addr)

pair_eq→eq :
    (p q : ConnectionPair)
    → IsInet p.src
    → IsInet p.dst
    → IsInet q.src
    → IsInet q.dst
    → pair_eq p q ≡ true
    → (p.src ≡ q.src) × (p.dst ≡ q.dst)
unfolding pair_eq
pair_eq→eq p q ips ipd iqs iqd e =
    ground (arith, cmp_sock_addr_in→eq p.src q.src ips iqs, cmp_sock_addr_in→eq p.dst q.dst ipd iqd)

pair_eq_of_eq : (p q : ConnectionPair) → p.src ≡ q.src → p.dst ≡ q.dst → pair_eq p q ≡ true
unfolding pair_eq
pair_eq_of_eq p q s d = ground arith

module _ (inet : Inet) (dotted : IsDotted inet) where
  -- An address and its port before the end of the text determine the address.
  text_of_addr :
      {a b : SockAddr}
      → IsInet a
      → IsInet b
      → inet.ntop a.addr ≡ inet.ntop b.addr
      → decimal (swap16 a.port) ≡ decimal (swap16 b.port)
      → a ≡ b
  text_of_addr {a} {b} ia ib t d =
      sock_addr-eq ia ib (dotted.injective a.addr b.addr ia.addr ib.addr t)
        (swap16-injective a.port b.port ia.port ib.port (decimal-injective _ _ d))

  colon_cut :
      (a b : ℕ) (s t : Text)
      → inet.ntop a ++ b':' ∷ s ≡ inet.ntop b ++ b':' ∷ t
      → (inet.ntop a ≡ inet.ntop b) × (s ≡ t)
  colon_cut a b s t =
      cut b':' (inet.ntop a) (inet.ntop b) s t (All-imp (inet.ntop a) (λ c p. p.0) (dotted.plain a))
        (All-imp (inet.ntop b) (λ c p. p.0) (dotted.plain b))

  -- IPv4 addresses with the same string of address and port are equal.
  pub get_ip_port_string-injective :
      {a b : SockAddr}
      → IsInet a
      → IsInet b
      → get_ip_port_string inet a ≡ get_ip_port_string inet b
      → a ≡ b
  unfolding get_ip_port_string
  get_ip_port_string-injective {a} {b} ia ib e =
      let (t, d) = colon_cut a.addr b.addr _ _ e in text_of_addr ia ib t d

  conn_string_inet :
      {a : SockAddr} (b : SockAddr)
      → IsInet a
      → (get_conn_string inet a b).0
        ≡ inet.ntop a.addr
          ++ b':'
            ∷ (decimal (swap16 a.port)
                ++ b',' ∷ (inet.ntop b.addr ++ b':' ∷ decimal (swap16 b.port)))
  unfolding get_conn_string
  conn_string_inet b ia = ground (arith, ia.family)

  -- The two addresses can be read off the string of a connection between IPv4 addresses.
  pub get_conn_string-injective :
      {a b c d : SockAddr}
      → IsInet a
      → IsInet b
      → IsInet c
      → IsInet d
      → (get_conn_string inet a b).0 ≡ (get_conn_string inet c d).0
      → (a ≡ c) × (b ≡ d)
  unfolding get_conn_string
  get_conn_string-injective {a} {b} {c} {d} ia ib ic id e =
      let e' = sym (conn_string_inet b ia) ∙ e ∙ conn_string_inet d ic in
      let (t, after) = colon_cut a.addr c.addr _ _ e' in
      let (n, rest) =
        cut b',' (decimal (swap16 a.port)) (decimal (swap16 c.port)) _ _
          (comma_free (swap16 a.port)) (comma_free (swap16 c.port)) after in
      let (t', n') = colon_cut b.addr d.addr _ _ rest in
      (text_of_addr ia ic t n, text_of_addr ib id t' n')

  -- Two connections between IPv4 addresses have the same string exactly if `operator==` holds of
  -- them.
  pub get_conn_string-pair_eq :
      (p q : ConnectionPair)
      → IsInet p.src
      → IsInet p.dst
      → IsInet q.src
      → IsInet q.dst
      → (pair_eq p q ≡ true)
        ↔ ((get_conn_string inet p.src p.dst).0 ≡ (get_conn_string inet q.src q.dst).0)
  unfolding pair_eq
  get_conn_string-pair_eq p q ips ipd iqs iqd = (
    λ e.
        let (s, d) = pair_eq→eq p q ips ipd iqs iqd e in
        ap₂ (λ a b. (get_conn_string inet a b).0) s d,
    λ e. let (s, d) = get_conn_string-injective ips ipd iqs iqd e in pair_eq_of_eq p q s d,
  )
