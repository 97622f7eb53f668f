-- ===== src/EventHandler/Peer.antt =====
-- src/eventHandler.cpp, `Connection::dstAddr`: the text of the other side of a connection, for logs.
use mimic_generator.Common.{
  ◌≡◌, refl, ◌∙◌, sym, true, false, ==_iff, [], ◌∷◌, ◌++◌, if◌then◌else◌, ◌==◌,
}
use mimic_generator.Common.Int.{ℤ, negsuc, ◌==ℤ◌}
use mimic_generator.Common.Maps.{Text}
use mimic_generator.Os.{Os, Call, History, perform}
use mimic_generator.Connections.{Inet, af_inet, swap16, get_ip_port_string}
use mimic_generator.Connections.Decimal.{decimal}
use mimic_generator.Connections.Identity.{IsInet, IsDotted, get_ip_port_string-injective}

module _ (os : Os) (inet : Inet) where
  -- `ntop6` is what inet_ntop makes of an address that is not of IPv4; its port is at the same place.
  unfoldable pub dst_addr : (ntop6 : Text) (sockfd : ℤ) → History → Text × History
  dst_addr ntop6 sockfd h =
      let addr = os.filled h (Call.getpeername sockfd) in
      let (status, h) = perform os (Call.getpeername sockfd) h in
      if status ==ℤ negsuc 0
      then ([], h)
      else if addr.family == af_inet
      then (inet.ntop addr.addr ++ (b':' ∷ decimal (swap16 addr.port)), h)
      else (ntop6 ++ (b':' ∷ decimal (swap16 addr.port)), h)

  dst_addr-get_ip_port_string :
      (ntop6 : Text) (sockfd : ℤ) (h : History)
      → (os.result h (Call.getpeername sockfd) ==ℤ negsuc 0) ≡ false
      → IsInet (os.filled h (Call.getpeername sockfd))
      → (dst_addr ntop6 sockfd h).0
        ≡ get_ip_port_string inet (os.filled h (Call.getpeername sockfd))
  unfolding dst_addr get_ip_port_string
  dst_addr-get_ip_port_string ntop6 sockfd h ok ip =
      let peer = os.filled h (Call.getpeername sockfd) in
      let inet4 : (peer.family == af_inet) ≡ true = (==_iff peer.family af_inet).1 ip.family in
      rw (ok, inet4) refl

  -- If `dstAddr` gives the same text for two sockets that have peers, and the peers' addresses are of
  -- IPv4, then it is the same peer.
  pub dst_addr-injective :
      IsDotted inet
      → (ntop6 ntop6' : Text) (fd fd' : ℤ) (h h' : History)
      → (os.result h (Call.getpeername fd) ==ℤ negsuc 0) ≡ false
      → (os.result h' (Call.getpeername fd') ==ℤ negsuc 0) ≡ false
      → IsInet (os.filled h (Call.getpeername fd))
      → IsInet (os.filled h' (Call.getpeername fd'))
      → (dst_addr ntop6 fd h).0 ≡ (dst_addr ntop6' fd' h').0
      → os.filled h (Call.getpeername fd) ≡ os.filled h' (Call.getpeername fd')
  dst_addr-injective dotted ntop6 ntop6' fd fd' h h' ok ok' ip ip' same =
      get_ip_port_string-injective inet dotted ip ip' (
        sym (dst_addr-get_ip_port_string ntop6 fd h ok ip)
        ∙ same
        ∙ dst_addr-get_ip_port_string ntop6' fd' h' ok' ip')
