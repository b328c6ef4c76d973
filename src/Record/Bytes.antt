-- ===== src/Record/Bytes.antt =====
-- The wire form of a record is a list of bytes.
use dns_server_cpp.Address.Words.{uint32_roundtrip}
use dns_server_cpp.Buffer.NameWire.{qname_bytes}
use dns_server_cpp.Buffer.Owners.{IsOwner, owner_bytes, qname_bytes-bytes}
use dns_server_cpp.Buffer.Wire.{u16_bytes, u32_bytes}
use dns_server_cpp.Cache.Defs.{size}
use dns_server_cpp.Common.{All-append, List, arith, length, ℕ, ◌++◌, ◌<◌, ◌^◌}
use dns_server_cpp.Record.Defs.{
  DnsRecord, DnsRecordData, SoaRecord, a_record, aaaa_record, cname_record, mx_record, ns_record,
  opt_record, soa_record, unknown_record,
}
use dns_server_cpp.Record.Wire.{
  IsBytes, IsData, IsSoa, counted_bytes, rdata_bytes, record_bytes, soa_words,
}

u32_bytes-IsBytes : (v : ℕ) → v < 2 ^ 32 → IsBytes (u32_bytes v)
u32_bytes-IsBytes v h = omega arith

soa_words-IsBytes : (s : SoaRecord) → IsSoa s → IsBytes (soa_words s)
soa_words-IsBytes s v =
    omega (arith, v.serial_lt, v.refresh_lt, v.retry_lt, v.expire_lt, v.minimum_lt)

rdata_bytes-IsBytes : (d : DnsRecordData) → IsData d → IsBytes (rdata_bytes d)
rdata_bytes-IsBytes (a_record a) v = u32_bytes-IsBytes _ (uint32_roundtrip 0 a (omega arith) v).2
rdata_bytes-IsBytes (aaaa_record a) v = v.1
rdata_bytes-IsBytes (cname_record n) v = qname_bytes-bytes n v
rdata_bytes-IsBytes (mx_record p n) v =
    All-append _ (u16_bytes p) (qname_bytes n) (omega (arith, v.0)) (qname_bytes-bytes n v.1)
rdata_bytes-IsBytes (ns_record n) v = qname_bytes-bytes n v
rdata_bytes-IsBytes (soa_record s) v =
    All-append _ (qname_bytes s.primary_name_server) _ (qname_bytes-bytes _ v.primary_is) (
      All-append _ (qname_bytes s.responsible_authority_mailbox) (soa_words s)
        (qname_bytes-bytes _ v.mailbox_is) (soa_words-IsBytes s v))
rdata_bytes-IsBytes (opt_record o) v = v.1
rdata_bytes-IsBytes (unknown_record bytes) v = v.1

pub IsBytes-append : (xs ys : List ℕ) → IsBytes xs → IsBytes ys → IsBytes (xs ++ ys)
IsBytes-append xs ys = All-append (λ x. x < 256) xs ys

pub record_bytes-IsBytes :
    (r : DnsRecord)
    → IsOwner r.name
    → IsData r.rdata
    → r.type < 2 ^ 16
    → r.class < 2 ^ 16
    → r.ttl < 2 ^ 32
    → length (rdata_bytes r.rdata) < 2 ^ 16
    → IsBytes (record_bytes r)
unfolding record_bytes
record_bytes-IsBytes r n v t c l size =
    let raw : List ℕ = rdata_bytes r.rdata in
    let counted : IsBytes (counted_bytes raw) =
      IsBytes-append (u16_bytes (length raw)) raw (omega arith) (rdata_bytes-IsBytes r.rdata v) in
    let times : IsBytes (u32_bytes r.ttl ++ counted_bytes raw) =
      IsBytes-append (u32_bytes r.ttl) (counted_bytes raw) (u32_bytes-IsBytes r.ttl l) counted in
    let classes : IsBytes (u16_bytes r.class ++ (u32_bytes r.ttl ++ counted_bytes raw)) =
      IsBytes-append (u16_bytes r.class) (u32_bytes r.ttl ++ counted_bytes raw) (omega arith)
        times in
    let types : IsBytes
        (u16_bytes r.type ++ (u16_bytes r.class ++ (u32_bytes r.ttl ++ counted_bytes raw))) =
      IsBytes-append (u16_bytes r.type)
        (u16_bytes r.class ++ (u32_bytes r.ttl ++ counted_bytes raw)) (omega arith) classes in
    IsBytes-append (qname_bytes r.name)
      (u16_bytes r.type ++ (u16_bytes r.class ++ (u32_bytes r.ttl ++ counted_bytes raw)))
      (owner_bytes r.name n) types
