-- ===== src/Header/Defs.antt =====
-- DnsHeader and ResultCode: the fields, the tests and setters on the flag word, reading and writing.
use dns_server_cpp.Buffer.Access.{read_u16, write_u16}
use dns_server_cpp.Buffer.State.{Action, pure, ◌>>=◌, ◌>>◌}
use dns_server_cpp.Common.{
  Bool, bit_and, bit_or, false, if◌then◌else◌, not, true, ℕ, ◌-◌, ◌==◌, ◌^◌,
}

pub data ResultCode : Type 0 where
  noerror formerr servfail nxdomain notimp refused unknown : ResultCode

-- The enumerators' values.
abbrev pub code_number : ResultCode → ℕ
code_number noerror = 0
code_number formerr = 1
code_number servfail = 2
code_number nxdomain = 3
code_number notimp = 4
code_number refused = 5
code_number unknown = 6

unfoldable pub result_code_from_num : ℕ → ResultCode
result_code_from_num num =
    if num == 0
    then noerror
    else if num == 1
    then formerr
    else if num == 2
    then servfail
    else if num == 3
    then nxdomain
    else if num == 4
    then notimp
    else if num == 5
    then refused
    else unknown

-- Comparisons with an enumerator.
abbrev pub is_noerror : ResultCode → Bool
is_noerror c = code_number c == 0

abbrev pub is_nxdomain : ResultCode → Bool
is_nxdomain c = code_number c == 3

pub record DnsHeader : Type 0 where
  pub id : ℕ
  pub flags : ℕ
  pub qdcount : ℕ
  pub ancount : ℕ
  pub nscount : ℕ
  pub arcount : ℕ

-- `DnsHeader() = default`.
abbrev pub empty_header : DnsHeader
empty_header = record { id = 0; flags = 0; qdcount = 0; ancount = 0; nscount = 0; arcount = 0 }

unfoldable pub read_header : Action DnsHeader
read_header = do
  id ← read_u16
  flags ← read_u16
  qdcount ← read_u16
  ancount ← read_u16
  nscount ← read_u16
  arcount ← read_u16
  pure (record {
    id = id;
    flags = flags;
    qdcount = qdcount;
    ancount = ancount;
    nscount = nscount;
    arcount = arcount;
  })

unfoldable pub write_header : DnsHeader → Action (Unit {0})
write_header h = do
  write_u16 h.id
  write_u16 h.flags
  write_u16 h.qdcount
  write_u16 h.ancount
  write_u16 h.nscount
  write_u16 h.arcount

unfoldable pub is_authoritative : DnsHeader → Bool
is_authoritative h = not (bit_and h.flags 0x0400 == 0)

unfoldable pub is_response : DnsHeader → Bool
is_response h = not (bit_and h.flags 0x8000 == 0)

unfoldable pub is_truncated : DnsHeader → Bool
is_truncated h = not (bit_and h.flags 0x0200 == 0)

unfoldable pub recursion_desired : DnsHeader → Bool
recursion_desired h = not (bit_and h.flags 0x0100 == 0)

unfoldable pub recursion_available : DnsHeader → Bool
recursion_available h = not (bit_and h.flags 0x0080 == 0)

unfoldable pub get_result_code : DnsHeader → ResultCode
get_result_code h = result_code_from_num (bit_and h.flags 0x000F)

-- `FLAGS |= 1 << k` and `FLAGS &= ~(1 << k)`; the mask's low 16 bits are all that matter, since
-- the result is stored in 16 bits.
abbrev pub set_flag : ℕ → Bool → DnsHeader → DnsHeader
set_flag k true h = record h { flags = bit_or h.flags (2 ^ k) }
set_flag k false h = record h { flags = bit_and h.flags (0xFFFF - 2 ^ k) }

unfoldable pub set_recursion_desired : Bool → DnsHeader → DnsHeader
set_recursion_desired = set_flag 8

unfoldable pub set_response : Bool → DnsHeader → DnsHeader
set_response = set_flag 15

unfoldable pub set_recursion_available : Bool → DnsHeader → DnsHeader
set_recursion_available = set_flag 7

unfoldable pub set_authoritative : Bool → DnsHeader → DnsHeader
set_authoritative = set_flag 10

unfoldable pub set_result_code : ResultCode → DnsHeader → DnsHeader
set_result_code rcode h = record h {
  flags = bit_or (bit_and h.flags 0xFFF0) (bit_and (code_number rcode) 0x000F);
}
