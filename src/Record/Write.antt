-- ===== src/Record/Write.antt =====
-- `qname_wire_length`, `writeData` and `write` of src/DnsRecord.cxx.
use dns_server_cpp.Address.Defs.{to_uint32}
use dns_server_cpp.Buffer.Access.{write_all, write_u16, write_u32}
use dns_server_cpp.Buffer.Names.{is_root_name, write_qname}
use dns_server_cpp.Buffer.State.{Action, length_error, pure, raise_if, ◌>>=◌, ◌>>◌}
use dns_server_cpp.Common.{
  Bool, List, [], false, if◌then◌else◌, length, ltb, ℕ, ◌%◌, ◌+◌, ◌==◌, ◌^◌, ◌∷◌,
}
use dns_server_cpp.Record.Defs.{
  DnsRecord, DnsRecordData, SoaRecord, a_record, aaaa_record, cname_record, mx_record, ns_record,
  opt_record, soa_record, unknown_record,
}

-- `name.back() == '.'`, for a name that is not empty.
unfoldable pub ends_with_dot : List ℕ → Bool
ends_with_dot [] = false
ends_with_dot (c ∷ []) = c == b'.'
ends_with_dot (c ∷ d ∷ s) = ends_with_dot (d ∷ s)

-- `std::numeric_limits<uint16_t>::max()`.
abbrev pub uint16_max : ℕ
uint16_max = 65535

unfoldable pub qname_wire_length : List ℕ → Action ℕ
qname_wire_length name =
    if is_root_name name
    then pure 1
    else (let n = length name + (if ends_with_dot name then 1 else 2) in
        do raise_if (ltb uint16_max n) length_error; pure n)

-- A name behind its length, as CNAME and NS write it.
abbrev pub write_name_data : List ℕ → Action (Unit {0})
write_name_data name = do n ← qname_wire_length name; write_u16 n; write_qname name

abbrev pub write_mx_data : ℕ → List ℕ → Action (Unit {0})
write_mx_data preference exchange = do
  n ← qname_wire_length exchange
  write_u16 ((2 + n) % 2 ^ 16)
  write_u16 preference
  write_qname exchange

abbrev pub write_soa_data : SoaRecord → Action (Unit {0})
write_soa_data s = do
  m ← qname_wire_length s.primary_name_server
  n ← qname_wire_length s.responsible_authority_mailbox
  raise_if (ltb uint16_max (m + n + 20)) length_error
  write_u16 (m + n + 20)
  write_qname s.primary_name_server
  write_qname s.responsible_authority_mailbox
  write_u32 s.serial_number
  write_u32 s.refresh_interval
  write_u32 s.retry_interval
  write_u32 s.expire_limit
  write_u32 s.minimum_ttl

-- Raw bytes behind their number, as OPT and unknown types write them.
abbrev pub write_raw_data : List ℕ → Action (Unit {0})
write_raw_data bytes = do write_u16 (length bytes % 2 ^ 16); write_all bytes

unfoldable pub write_data : DnsRecordData → Action (Unit {0})
write_data (a_record a) = do write_u16 4; write_u32 (to_uint32 a)
write_data (aaaa_record a) = do write_u16 16; write_all a.address
write_data (cname_record n) = write_name_data n
write_data (mx_record p n) = write_mx_data p n
write_data (ns_record n) = write_name_data n
write_data (soa_record s) = write_soa_data s
write_data (opt_record o) = write_raw_data o.options_raw
write_data (unknown_record bytes) = write_raw_data bytes

unfoldable pub write_record : DnsRecord → Action (Unit {0})
write_record r = do
  write_qname r.name
  write_u16 r.type
  write_u16 r.class
  write_u32 r.ttl
  write_data r.rdata
