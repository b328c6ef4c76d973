-- ===== src/Net/Endpoints.antt =====
-- A SocketAddress as an object: what its storage holds, and the length that the system calls are given
-- (src/SocketAddress.cxx).
use dns_server_cpp.Address.Defs.{IpAddress, Ipv6Address, any_ipv4, v4, v6}
use dns_server_cpp.Address.Text.{inet6_family, inet_family}
use dns_server_cpp.Common.{
  ==_iff, Bool-cases, Option, [], arith, if◌then◌else◌, inl, inr, ltb, none, some, some-injective,
  sym, ℕ, ◌==◌, ◌∷◌, ◌≡◌, ◌≤◌,
}
use dns_server_cpp.Net.Sockets.{SocketAddress, af_inet, af_inet6, af_other, from_ip}

pub record Endpoint : Type 0 where
  pub storage : SocketAddress
  pub address_length : ℕ

-- `sizeof(sockaddr_storage)`, `sizeof(sockaddr_in)` and `sizeof(sockaddr_in6)`.
abbrev pub storage_size : ℕ
storage_size = 128

abbrev pub inet_size : ℕ
inet_size = 16

abbrev pub inet6_size : ℕ
inet6_size = 28

-- The default constructor: a storage of zeros.
abbrev pub default_endpoint : Endpoint
default_endpoint = record { storage = af_other 0; address_length = storage_size }

abbrev pub size_of : IpAddress → ℕ
size_of (v4 a) = inet_size
size_of (v6 a) = inet6_size

-- `from_ip`, with the length.
unfoldable pub endpoint_from_ip : IpAddress → ℕ → Endpoint
endpoint_from_ip a port = record { storage = from_ip a port; address_length = size_of a }

-- The default constructor of IPv6Address.
abbrev pub any_ipv6 : Ipv6Address
any_ipv6 = record { address = 0 ∷ 0 ∷ 0 ∷ 0 ∷ 0 ∷ 0 ∷ 0 ∷ 0 ∷ 0 ∷ 0 ∷ 0 ∷ 0 ∷ 0 ∷ 0 ∷ 0 ∷ 0 ∷ [] }

-- `any`; nothing where it throws `std::invalid_argument`.
unfoldable pub any_endpoint : ℕ → ℕ → Option Endpoint
unfolding endpoint_from_ip
any_endpoint family port =
    if family == inet_family
    then some (endpoint_from_ip (v4 any_ipv4) port)
    else if family == inet6_family
    then some (endpoint_from_ip (v6 any_ipv6) port)
    else none

unfoldable pub family_of : SocketAddress → ℕ
family_of (af_inet port a) = inet_family
family_of (af_inet6 port scope a) = inet6_family
family_of (af_other family) = family

-- `set_length`; nothing where it throws `std::invalid_argument`.
unfoldable pub set_address_length : ℕ → Endpoint → Option Endpoint
set_address_length n e = if ltb storage_size n then none else some (record e { address_length = n })

pub set_address_length_fits :
    (n : ℕ) (e : Endpoint)
    → n ≤ storage_size
    → set_address_length n e ≡ some (record e { address_length = n })
unfolding set_address_length
set_address_length_fits n e h = ground arith

-- An address of a family that the program makes is of that family.
pub any_endpoint-family :
    (family port : ℕ) (e : Endpoint)
    → any_endpoint family port ≡ some e
    → family_of e.storage ≡ family
unfolding any_endpoint family_of from_ip
any_endpoint-family family port e h = elim (Bool-cases (family == inet_family)) [
  | inl t ↦ (rw (← some-injective (simp t at h)) (sym ((==_iff family inet_family).0 t)))
  | inr f ↦ elim (Bool-cases (family == inet6_family)) [
    | inl t ↦ (rw (← some-injective (simp (f, t) at h)) (sym ((==_iff family inet6_family).0 t)))
    | inr g ↦ cc (simp (f, g) at h)
  ]
]
