-- ===== src/Record/Read.antt =====
-- `DnsRecord::read` of src/DnsRecord.cxx.
use dns_server_cpp.Address.Defs.{ipv4_of_uint32}
use dns_server_cpp.Buffer.Access.{position, read_bytes, read_u16, read_u32, read_u8, remaining}
use dns_server_cpp.Buffer.Names.{read_qname}
use dns_server_cpp.Buffer.State.{
  Action, BytePacketBuffer, get_state, out_of_range, pure, raise_if, runtime_error, ◌>>=◌, ◌>>◌,
}
use dns_server_cpp.Common.{
  List, [], bit_and, if◌then◌else◌, ltb, not, suc, zero, ℕ, ◌%◌, ◌+◌, ◌-◌, ◌/◌, ◌==◌, ◌^◌, ◌∷◌,
}
use dns_server_cpp.Question.Defs.{
  QuestionType, a_type, aaaa_type, cname_type, mx_type, ns_type, opt_type, soa_type,
}
use dns_server_cpp.Record.Defs.{
  DnsRecord, DnsRecordData, OptRecord, a_record, aaaa_record, cname_record, mx_record, ns_record,
  opt_record, soa_record, unknown_record,
}

-- The loop that reads the sixteen bytes of an AAAA record.
unfoldable pub read_u8s : ℕ → Action (List ℕ)
read_u8s zero = pure []
read_u8s (suc n) = do x ← read_u8; xs ← read_u8s n; pure (x ∷ xs)

-- The cases of the `switch`.
unfoldable pub read_a_data : ℕ → Action DnsRecordData
read_a_data rdlength = do
  raise_if (not (rdlength == 4)) runtime_error
  ip ← read_u32
  pure (a_record (ipv4_of_uint32 ip))

unfoldable pub read_aaaa_data : ℕ → Action DnsRecordData
read_aaaa_data rdlength = do
  raise_if (not (rdlength == 16)) runtime_error
  bytes ← read_u8s 16
  pure (aaaa_record (record { address = bytes }))

unfoldable pub read_cname_data : Action DnsRecordData
read_cname_data = do name ← read_qname; pure (cname_record name)

unfoldable pub read_mx_data : Action DnsRecordData
read_mx_data = do preference ← read_u16; exchange ← read_qname; pure (mx_record preference exchange)

unfoldable pub read_ns_data : Action DnsRecordData
read_ns_data = do name ← read_qname; pure (ns_record name)

unfoldable pub read_soa_data : Action DnsRecordData
read_soa_data = do
  mname ← read_qname
  rname ← read_qname
  serial ← read_u32
  refresh ← read_u32
  retry ← read_u32
  expire ← read_u32
  minimum ← read_u32
  pure (
      soa_record (record {
        primary_name_server = mname;
        responsible_authority_mailbox = rname;
        serial_number = serial;
        refresh_interval = refresh;
        retry_interval = retry;
        expire_limit = expire;
        minimum_ttl = minimum;
      }))

-- What an OPT record keeps in its class and TTL.
unfoldable pub opt_of : ℕ → ℕ → List ℕ → OptRecord
opt_of class ttl options = record {
  udp_payload_size = class;
  extended_rcode = bit_and (ttl / 2 ^ 24) 0xFF;
  version = bit_and (ttl / 2 ^ 16) 0xFF;
  dnssec_ok = not (bit_and (bit_and ttl 0xFFFF) 0x8000 == 0);
  options_raw = options;
}

unfoldable pub read_opt_data : ℕ → ℕ → ℕ → Action DnsRecordData
read_opt_data class ttl rdlength = do
  options ← read_bytes rdlength
  pure (opt_record (opt_of class ttl options))

unfoldable pub read_unknown_data : ℕ → Action DnsRecordData
read_unknown_data rdlength = do bytes ← read_bytes rdlength; pure (unknown_record bytes)

unfoldable pub read_data : QuestionType → ℕ → ℕ → ℕ → Action DnsRecordData
read_data type class ttl rdlength =
    if type == a_type
    then read_a_data rdlength
    else if type == aaaa_type
    then read_aaaa_data rdlength
    else if type == cname_type
    then read_cname_data
    else if type == mx_type
    then read_mx_data
    else if type == ns_type
    then read_ns_data
    else if type == soa_type
    then read_soa_data
    else if type == opt_type
    then read_opt_data class ttl rdlength
    else read_unknown_data rdlength

-- `position() - rdata_start` on std::size_t.
abbrev pub bytes_since : ℕ → BytePacketBuffer → ℕ
bytes_since start b = (position b + 2 ^ 64 - start) % 2 ^ 64

-- From the length of the data on.
unfoldable pub read_body : List ℕ → ℕ → ℕ → ℕ → ℕ → Action DnsRecord
read_body name type class ttl rdlength = do
  b ← get_state
  raise_if (ltb (remaining b) rdlength) out_of_range
  rdata ← read_data type class ttl rdlength
  b' ← get_state
  raise_if (not (bytes_since (position b) b' == rdlength)) runtime_error
  pure (record {
    name = name;
    type = type;
    class = class;
    ttl = ttl;
    rdlength = rdlength;
    rdata = rdata;
  })

unfoldable pub read_record : Action DnsRecord
read_record = do
  name ← read_qname
  type ← read_u16
  class ← read_u16
  ttl ← read_u32
  rdlength ← read_u16
  read_body name type class ttl rdlength
