-- ===== src/Address/Text.antt =====
-- The text forms of addresses (src/IPv4Address.cxx, src/IPv6Address.cxx). `inet_pton` is a parameter.
use dns_server_cpp.Address.Defs.{IpAddress, Ipv4Address, Ipv6Address, v4, v6}
use dns_server_cpp.Common.{
  List, Option, [], if◌then◌else◌, ltb, some, ℕ, ◌%◌, ◌++◌, ◌+◌, ◌/◌, ◌==◌, ◌∷◌,
}

-- `inet_pton` for the two families, on a C string; nothing where it does not return 1.
pub record InetPton : Type 0 where
  pub parse4 : List ℕ → Option Ipv4Address
  pub parse6 : List ℕ → Option Ipv6Address

-- `c_str()` as a C function reads it: up to the first zero byte.
unfoldable pub c_string : List ℕ → List ℕ
c_string [] = []
c_string (c ∷ s) = let later = c_string s in if c == 0 then [] else (c ∷ later)

-- The constructors from a string; nothing where they throw `std::invalid_argument`.
unfoldable pub ipv4_of_text : InetPton → List ℕ → Option Ipv4Address
ipv4_of_text inet text = inet.parse4 (c_string text)

unfoldable pub ipv6_of_text : InetPton → List ℕ → Option Ipv6Address
ipv6_of_text inet text = inet.parse6 (c_string text)

-- `std::to_string` of a number below 1000; an octet is below 256.
unfoldable pub decimal : ℕ → List ℕ
decimal n =
    if ltb n 10
    then (b'0' + n) ∷ []
    else if ltb n 100
    then (b'0' + n / 10) ∷ (b'0' + n % 10) ∷ []
    else (b'0' + n / 100) ∷ (b'0' + n / 10 % 10) ∷ (b'0' + n % 10) ∷ []

abbrev pub dot : ℕ
dot = b'.'

unfoldable pub to_string : Ipv4Address → List ℕ
unfolding decimal
to_string a =
    decimal a.octet0
    ++ (dot ∷ (decimal a.octet1 ++ (dot ∷ (decimal a.octet2 ++ (dot ∷ decimal a.octet3)))))

-- `AF_INET` and `AF_INET6`.
abbrev pub inet_family : ℕ
inet_family = 2

abbrev pub inet6_family : ℕ
inet6_family = 10

unfoldable pub address_family : IpAddress → ℕ
address_family (v4 a) = inet_family
address_family (v6 a) = inet6_family

-- `inet_ntop` of sixteen bytes is a parameter; nothing where it fails, and `to_string` throws
-- `std::runtime_error`.
unfoldable pub ipv6_to_string : (List ℕ → Option (List ℕ)) → Ipv6Address → Option (List ℕ)
ipv6_to_string inet_ntop a = inet_ntop a.address

unfoldable pub address_to_string : (List ℕ → Option (List ℕ)) → IpAddress → Option (List ℕ)
unfolding to_string ipv6_to_string
address_to_string inet_ntop (v4 a) = some (to_string a)
address_to_string inet_ntop (v6 a) = ipv6_to_string inet_ntop a
