-- ===== src/Address/Defs.antt =====
-- IPv4Address, IPv6Address and IPAddress (include/IPv4Address.hpp, include/IPv6Address.hpp,
-- include/IPAddress.hpp). The conversions from text are inet_pton's, which is not modelled.
use dns_server_cpp.Common.{
  Bool, List, [], bit_and, bit_or, false, true, ℕ, ◌&&◌, ◌*◌, ◌/◌, ◌==◌, ◌^◌, ◌∷◌,
}

-- The array of four octets.
pub record Ipv4Address : Type 0 where
  pub octet0 : ℕ
  pub octet1 : ℕ
  pub octet2 : ℕ
  pub octet3 : ℕ

-- The array of sixteen bytes.
pub record Ipv6Address : Type 0 where
  pub address : List ℕ

-- std::variant<IPv4Address, IPv6Address>.
pub data IpAddress : Type 0 where
  v4 : Ipv4Address → IpAddress
  v6 : Ipv6Address → IpAddress

-- The default constructor.
abbrev pub any_ipv4 : Ipv4Address
any_ipv4 = record { octet0 = 0; octet1 = 0; octet2 = 0; octet3 = 0 }

-- The constructor from a 32-bit word.
unfoldable pub ipv4_of_uint32 : ℕ → Ipv4Address
ipv4_of_uint32 ip = record {
  octet0 = bit_and (ip / 2 ^ 24) 0xFF;
  octet1 = bit_and (ip / 2 ^ 16) 0xFF;
  octet2 = bit_and (ip / 2 ^ 8) 0xFF;
  octet3 = bit_and ip 0xFF;
}

unfoldable pub to_uint32 : Ipv4Address → ℕ
to_uint32 a =
    bit_or (bit_or (bit_or (a.octet0 * 2 ^ 24) (a.octet1 * 2 ^ 16)) (a.octet2 * 2 ^ 8)) a.octet3

-- `operator==` on arrays of bytes.
unfoldable pub bytes_eq : List ℕ → List ℕ → Bool
bytes_eq [] [] = true
bytes_eq [] (y ∷ ys) = false
bytes_eq (x ∷ xs) [] = false
bytes_eq (x ∷ xs) (y ∷ ys) = x == y && bytes_eq xs ys

unfoldable pub ipv4_eq : Ipv4Address → Ipv4Address → Bool
ipv4_eq a b =
    a.octet0 == b.octet0 && a.octet1 == b.octet1 && a.octet2 == b.octet2 && a.octet3 == b.octet3

-- `operator==` on the variant: the same alternative, with equal values.
unfoldable pub address_eq : IpAddress → IpAddress → Bool
address_eq (v4 a) (v4 b) = ipv4_eq a b
address_eq (v4 a) (v6 b) = false
address_eq (v6 a) (v4 b) = false
address_eq (v6 a) (v6 b) = bytes_eq a.address b.address
