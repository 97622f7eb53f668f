-- ===== src/Connections.antt =====
-- src/connections.cpp: addresses, the strings that name connections, and sockets. The conversions of
-- addresses to and from text are parameters.
pub mod Decimal
pub mod Dotted
pub mod Identity
pub mod Sockets
mod Tests
use mimic_generator.Common.{
  ℕ, ◌+◌, ◌-◌, ◌*◌, ◌/◌, ◌%◌, ◌^◌, Option, none, some, Bool, true, false, ◌&&◌, List, [], ◌∷◌, ◌++◌,
  ◌==◌, if◌then◌else◌,
}
use mimic_generator.Common.Int.{ℤ, pos, negsuc}
use mimic_generator.Common.Maps.{Text}
use mimic_generator.Os.{SockAddr}
use Decimal.{decimal}

-- inet_pton, none if the text is no address, and inet_ntop.
pub record Inet : Type 0 where
  pub pton : Text → Option ℕ
  pub ntop : ℕ → Text

abbrev pub af_inet : ℕ
af_inet = 2

-- `htons` and `ntohs` on the little-endian hosts that the build is for.
abbrev pub swap16 : ℕ → ℕ
swap16 n = n % 256 * 256 + n / 256

-- `ntohl`
abbrev pub swap32 : ℕ → ℕ
swap32 n = n % 256 * 16777216 + n / 256 % 256 * 65536 + n / 65536 % 256 * 256 + n / 16777216

-- The uint16_t that an `int` is converted to.
abbrev pub to_u16 : ℤ → ℕ
to_u16 (pos n) = n % 2 ^ 16
to_u16 (negsuc n) = 2 ^ 16 - 1 - n % 2 ^ 16

pub record ConnectionPair : Type 0 where
  pub src : SockAddr
  pub dst : SockAddr

-- `inet_pton` leaves the field alone where it fails: then the uninitialised value `stale` stays.
abbrev address : Inet → (stale : ℕ) → Text → ℤ → SockAddr
address inet stale ip port = record {
  family = af_inet;
  addr = elim (inet.pton ip) [ none ↦ stale | some a ↦ a ];
  port = swap16 (to_u16 port);
}

-- The constructor of connectionPair.
unfoldable pub connection_pair :
    Inet
    → (stale_src stale_dst : ℕ) → (src_ip : Text) (sport : ℤ) (dst_ip : Text) (dport : ℤ)
    → ConnectionPair
connection_pair inet stale_src stale_dst src_ip sport dst_ip dport = record {
  src = address inet stale_src src_ip sport;
  dst = address inet stale_dst dst_ip dport;
}

unfoldable pub cmp_sock_addr_in : SockAddr → SockAddr → Bool
cmp_sock_addr_in a b =
    if a.family == b.family
    then (if swap32 a.addr == swap32 b.addr
        then (if a.port == b.port then true else false)
        else false)
    else false

-- connectionPair::operator==
unfoldable pub pair_eq : ConnectionPair → ConnectionPair → Bool
unfolding cmp_sock_addr_in
pair_eq p a = if cmp_sock_addr_in p.src a.src && cmp_sock_addr_in p.dst a.dst then true else false

unfoldable pub get_ip_port_string : Inet → SockAddr → Text
get_ip_port_string inet sa = inet.ntop sa.addr ++ (b':' ∷ decimal (swap16 sa.port))

-- The string, and `*success`.
unfoldable pub get_conn_string : Inet → (src dst : SockAddr) → Text × Bool
get_conn_string inet src dst =
    let sport = if src.family == af_inet then swap16 src.port else 0 in
    let dport = if src.family == af_inet then swap16 dst.port else 0 in
    (
      inet.ntop src.addr
          ++ (b':' ∷ decimal sport ++ (b',' ∷ inet.ntop dst.addr ++ (b':' ∷ decimal dport))),
      true,
    )
