-- ===== src/Net/Sockets.antt =====
-- SocketAddress (src/SocketAddress.cxx). The storage is what its family makes of it: an address and
-- a port, for IPv6 also a scope, and nothing of use for another family.
use dns_server_cpp.Address.Defs.{IpAddress, Ipv4Address, Ipv6Address, bytes_eq, ipv4_eq, v4, v6}
use dns_server_cpp.Address.Words.{bytes_eq_iff, ipv4_eq_iff}
use dns_server_cpp.Common.{Bool, arith, false, true, ℕ, ◌&&◌, ◌==◌, ◌↔◌, ◌≡◌}

pub data SocketAddress : Type 0 where
  af_inet : ℕ → Ipv4Address → SocketAddress
  af_inet6 : ℕ → ℕ → Ipv6Address → SocketAddress
  af_other : ℕ → SocketAddress

unfoldable pub from_ip : IpAddress → ℕ → SocketAddress
from_ip (v4 a) port = af_inet port a
from_ip (v6 a) port = af_inet6 port 0 a

-- `operator==`.
unfoldable pub socket_eq : SocketAddress → SocketAddress → Bool
socket_eq (af_inet p a) (af_inet q b) = p == q && ipv4_eq a b
socket_eq (af_inet p a) (af_inet6 q s b) = false
socket_eq (af_inet p a) (af_other f) = false
socket_eq (af_inet6 p s a) (af_inet q b) = false
socket_eq (af_inet6 p s a) (af_inet6 q t b) = p == q && s == t && bytes_eq a.address b.address
socket_eq (af_inet6 p s a) (af_other f) = false
socket_eq (af_other f) other = false

-- A reply's source equals the address that was asked exactly when it has the same family, port and
-- address, and for IPv6 no scope.
pub from_ip_eq_iff :
    (source : SocketAddress) (a : IpAddress) (port : ℕ)
    → (socket_eq source (from_ip a port) ≡ true) ↔ (source ≡ from_ip a port)
unfolding socket_eq from_ip
from_ip_eq_iff (af_inet p b) (v4 a) port = ground (arith, ipv4_eq_iff b a)
from_ip_eq_iff (af_inet p b) (v6 a) port = (λ e. cc e, λ e. cc e)
from_ip_eq_iff (af_inet6 p s b) (v4 a) port = (λ e. cc e, λ e. cc e)
from_ip_eq_iff (af_inet6 p s b) (v6 a) port = ground (arith, bytes_eq_iff b.address a.address)
from_ip_eq_iff (af_other f) (v4 a) port = (λ e. cc e, λ e. cc e)
from_ip_eq_iff (af_other f) (v6 a) port = (λ e. cc e, λ e. cc e)
