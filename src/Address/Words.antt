-- ===== src/Address/Words.antt =====
-- IPv4 addresses as 32-bit words, and equality of addresses.
use dns_server_cpp.Address.Defs.{
  IpAddress, Ipv4Address, address_eq, bytes_eq, ipv4_eq, ipv4_of_uint32, to_uint32, v4, v6,
}
use dns_server_cpp.Common.{
  List, [], arith, refl, true, ℕ, ◌%◌, ◌*◌, ◌+◌, ◌/◌, ◌<◌, ◌^◌, ◌↔◌, ◌∙◌, ◌∷◌, ◌≡◌,
}
use dns_server_cpp.Common.Bits.{and_ones, or_shift}

pub record IsIpv4 (a : Ipv4Address) : Type 0 where
  pub octet0_lt : a.octet0 < 256
  pub octet1_lt : a.octet1 < 256
  pub octet2_lt : a.octet2 < 256
  pub octet3_lt : a.octet3 < 256

-- The word is the octets in network order.
pub to_uint32_sum :
    (a : Ipv4Address)
    → IsIpv4 a
    → to_uint32 a ≡ a.octet0 * 2 ^ 24 + a.octet1 * 2 ^ 16 + a.octet2 * 2 ^ 8 + a.octet3
unfolding to_uint32
to_uint32_sum a h =
    let one = or_shift 24 a.octet0 (a.octet1 * 2 ^ 16) (omega arith) in
    let q1 : a.octet0 * 2 ^ 24 + a.octet1 * 2 ^ 16 ≡ (a.octet0 * 2 ^ 8 + a.octet1) * 2 ^ 16 =
      omega arith in
    let two = or_shift 16 (a.octet0 * 2 ^ 8 + a.octet1) (a.octet2 * 2 ^ 8) (omega arith) in
    let q2 : (a.octet0 * 2 ^ 8 + a.octet1) * 2 ^ 16 + a.octet2 * 2 ^ 8
        ≡ ((a.octet0 * 2 ^ 8 + a.octet1) * 2 ^ 8 + a.octet2) * 2 ^ 8 =
      omega arith in
    let three =
      or_shift 8 ((a.octet0 * 2 ^ 8 + a.octet1) * 2 ^ 8 + a.octet2) a.octet3 (omega arith) in
    rw (one, q1, two, q2, three) (omega arith)

ipv4_of_uint32-fields :
    (ip : ℕ)
    → ipv4_of_uint32 ip ≡ record {
      octet0 = ip / 2 ^ 24 % 256;
      octet1 = ip / 2 ^ 16 % 256;
      octet2 = ip / 2 ^ 8 % 256;
      octet3 = ip % 256;
    }
unfolding ipv4_of_uint32
ipv4_of_uint32-fields ip = simp (and_ones 8)

-- The octets of a word are bytes.
pub ipv4_of_uint32-IsIpv4 : (ip : ℕ) → IsIpv4 (ipv4_of_uint32 ip)
ipv4_of_uint32-IsIpv4 ip = rw (ipv4_of_uint32-fields ip) (omega arith)

octets_eq :
    (a b : Ipv4Address)
    → a.octet0 ≡ b.octet0
    → a.octet1 ≡ b.octet1
    → a.octet2 ≡ b.octet2
    → a.octet3 ≡ b.octet3
    → a ≡ b
octets_eq a b p q r s = λ i. record { octet0 = p i; octet1 = q i; octet2 = r i; octet3 = s i }

-- The two conversions are inverse to one another, on 32-bit words and on octets below 256, and the
-- word of four octets has 32 bits.
pub uint32_roundtrip :
    (ip : ℕ) (a : Ipv4Address)
    → ip < 2 ^ 32
    → IsIpv4 a
    → (to_uint32 (ipv4_of_uint32 ip) ≡ ip)
      × (ipv4_of_uint32 (to_uint32 a) ≡ a)
      × (to_uint32 a < 2 ^ 32)
uint32_roundtrip ip a h v = (
  to_uint32_sum (ipv4_of_uint32 ip) (ipv4_of_uint32-IsIpv4 ip)
      ∙ rw (ipv4_of_uint32-fields ip) (omega arith),
  rw (ipv4_of_uint32-fields (to_uint32 a), to_uint32_sum a v)
      (octets_eq _ a (omega arith) (omega arith) (omega arith) (omega arith)),
  rw (to_uint32_sum a v) (omega arith),
)

-- `operator==` decides equality.
pub bytes_eq_iff : (xs ys : List ℕ) → (bytes_eq xs ys ≡ true) ↔ (xs ≡ ys)
unfolding bytes_eq
bytes_eq_iff [] [] = (λ _. refl, λ _. refl)
bytes_eq_iff [] (y ∷ ys) = (λ e. cc, λ e. cc)
bytes_eq_iff (x ∷ xs) [] = (λ e. cc, λ e. cc)
bytes_eq_iff (x ∷ xs) (y ∷ ys) = ground (arith, bytes_eq_iff xs ys)

pub ipv4_eq_iff : (a b : Ipv4Address) → (ipv4_eq a b ≡ true) ↔ (a ≡ b)
unfolding ipv4_eq
ipv4_eq_iff a b = ground arith

-- The comparison of addresses decides equality: it holds for the same kind with the same bytes.
pub address_eq_iff : (a b : IpAddress) → (address_eq a b ≡ true) ↔ (a ≡ b)
unfolding address_eq
address_eq_iff (v4 a) (v4 b) = ground (arith, ipv4_eq_iff a b)
address_eq_iff (v4 a) (v6 b) = (λ e. cc, λ e. cc)
address_eq_iff (v6 a) (v4 b) = (λ e. cc, λ e. cc)
address_eq_iff (v6 a) (v6 b) = ground (arith, bytes_eq_iff a.address b.address)
