-- ===== src/Record/Reading.antt =====
-- `DnsRecord::read` on the wire form of a record: it gives the record back, with the length of its
-- data filled in.
use dns_server_cpp.Address.Defs.{Ipv4Address, Ipv6Address, ipv4_of_uint32, to_uint32}
use dns_server_cpp.Address.Words.{IsIpv4, uint32_roundtrip}
use dns_server_cpp.Buffer.Access.{position, remaining}
use dns_server_cpp.Buffer.NameReading.{read_qname-Reads}
use dns_server_cpp.Buffer.Owners.{IsOwner, read_owner-Reads, shown_name}
use dns_server_cpp.Buffer.Reading.{
  Reads, bind-Reads, last-Reads, pure-Reads, read_bytes-Reads, read_u16-Reads, read_u32-Reads,
  read_u8-Reads,
}
use dns_server_cpp.Buffer.Wire.{u32_bytes}
use dns_server_cpp.Common.{
  List, [], arith, false, length, ltb, ne→==, subst, sym, true, ℕ, ◌%◌, ◌+◌, ◌-◌, ◌<◌, ◌==◌, ◌^◌,
  ◌∷◌, ◌≡◌, ◌≢◌,
}
use dns_server_cpp.Question.Defs.{
  QuestionType, a_type, aaaa_type, cname_type, mx_type, ns_type, opt_type, soa_type,
}
use dns_server_cpp.Record.Defs.{
  DnsRecord, DnsRecordData, SoaRecord, a_record, aaaa_record, cname_record, mx_record, ns_record,
  opt_record, soa_record, unknown_record,
}
use dns_server_cpp.Record.Read.{
  opt_of, read_a_data, read_aaaa_data, read_body, read_cname_data, read_data, read_mx_data,
  read_ns_data, read_opt_data, read_record, read_soa_data, read_u8s, read_unknown_data,
}
use dns_server_cpp.Record.Wire.{IsData, IsSoa, rdata_bytes, record_bytes}

-- The data that `read` makes for a type: its alternative, and for OPT the fields that the class and
-- the TTL hold.
abbrev pub Describes : QuestionType → ℕ → ℕ → DnsRecordData → Type 0
Describes type class ttl (a_record a) = type ≡ a_type
Describes type class ttl (aaaa_record a) = type ≡ aaaa_type
Describes type class ttl (cname_record n) = type ≡ cname_type
Describes type class ttl (mx_record p n) = type ≡ mx_type
Describes type class ttl (ns_record n) = type ≡ ns_type
Describes type class ttl (soa_record s) = type ≡ soa_type
Describes type class ttl (opt_record o) = (type ≡ opt_type) × (o ≡ opt_of class ttl o.options_raw)
Describes type class ttl (unknown_record bytes) =
    (type ≢ a_type)
    × (type ≢ aaaa_type)
    × (type ≢ cname_type)
    × (type ≢ mx_type)
    × (type ≢ ns_type)
    × (type ≢ soa_type)
    × (type ≢ opt_type)

read_u8s-Reads : (xs : List ℕ) → Reads (read_u8s (length xs)) xs xs
unfolding read_u8s
read_u8s-Reads [] = pure-Reads []
read_u8s-Reads (x ∷ xs) =
    bind-Reads _ (read_u8-Reads x) (last-Reads (λ ys. x ∷ ys) (read_u8s-Reads xs))

read_a-Reads :
    (a : Ipv4Address) → IsIpv4 a → Reads (read_a_data 4) (u32_bytes (to_uint32 a)) (a_record a)
unfolding read_a_data
read_a-Reads a v =
    let (_, back, small) = uint32_roundtrip 0 a (omega arith) v in
    subst (λ t. Reads (read_a_data 4) (u32_bytes (to_uint32 a)) (a_record t)) back
      (last-Reads (λ ip. a_record (ipv4_of_uint32 ip)) (read_u32-Reads (to_uint32 a) small))

read_aaaa-Reads :
    (a : Ipv6Address)
    → length a.address ≡ 16
    → Reads (read_aaaa_data (length a.address)) a.address (aaaa_record a)
unfolding read_aaaa_data
read_aaaa-Reads a l = rw l (
    last-Reads (λ bytes. aaaa_record (record { address = bytes }))
      (subst (λ n. Reads (read_u8s n) a.address a.address) l (read_u8s-Reads a.address)))

read_soa-Reads :
    (s : SoaRecord) → IsSoa s → Reads read_soa_data (rdata_bytes (soa_record s)) (soa_record s)
unfolding read_soa_data
read_soa-Reads s v = bind-Reads _ (read_qname-Reads s.primary_name_server v.primary_is) (
    bind-Reads _ (read_qname-Reads s.responsible_authority_mailbox v.mailbox_is) (
      bind-Reads _ (read_u32-Reads s.serial_number v.serial_lt) (
        bind-Reads _ (read_u32-Reads s.refresh_interval v.refresh_lt) (
          bind-Reads _ (read_u32-Reads s.retry_interval v.retry_lt) (
            bind-Reads _ (read_u32-Reads s.expire_limit v.expire_lt)
              (last-Reads _ (read_u32-Reads s.minimum_ttl v.minimum_lt)))))))

read_data-Reads :
    (type class ttl : ℕ) (d : DnsRecordData)
    → IsData d
    → Describes type class ttl d
    → Reads (read_data type class ttl (length (rdata_bytes d))) (rdata_bytes d) d
unfolding read_data read_cname_data read_mx_data read_ns_data read_opt_data read_unknown_data
read_data-Reads type class ttl (a_record a) v e = rw e (read_a-Reads a v)
read_data-Reads type class ttl (aaaa_record a) v e = rw e (read_aaaa-Reads a v.0)
read_data-Reads type class ttl (cname_record n) v e = rw e (last-Reads _ (read_qname-Reads n v))
read_data-Reads type class ttl (mx_record p n) v e =
    rw e (bind-Reads _ (read_u16-Reads p v.0) (last-Reads _ (read_qname-Reads n v.1)))
read_data-Reads type class ttl (ns_record n) v e = rw e (last-Reads _ (read_qname-Reads n v))
read_data-Reads type class ttl (soa_record s) v e = rw e (read_soa-Reads s v)
read_data-Reads type class ttl (opt_record o) v e = rw e.0 (
    subst (λ t. Reads (read_opt_data class ttl (length o.options_raw)) o.options_raw (opt_record t))
      (sym e.1)
      (last-Reads (λ xs. opt_record (opt_of class ttl xs)) (read_bytes-Reads o.options_raw)))
read_data-Reads type class ttl (unknown_record bytes) v (e1, e2, e3, e4, e5, e6, e7) =
    rw
      (
        ne→== type a_type e1,
        ne→== type aaaa_type e2,
        ne→== type cname_type e3,
        ne→== type mx_type e4,
        ne→== type ns_type e5,
        ne→== type soa_type e6,
        ne→== type opt_type e7,
      )
      (last-Reads unknown_record (read_bytes-Reads bytes))

-- What makes a record come back as it was written.
pub record IsRecord (r : DnsRecord) : Type 0 where
  pub name_is : IsOwner r.name
  pub type_lt : r.type < 2 ^ 16
  pub class_lt : r.class < 2 ^ 16
  pub ttl_lt : r.ttl < 2 ^ 32
  pub data_is : IsData r.rdata
  pub describes : Describes r.type r.class r.ttl r.rdata
  pub size_lt : length (rdata_bytes r.rdata) < 2 ^ 16

-- The record as `read` returns it.
abbrev pub as_read : DnsRecord → DnsRecord
as_read r = record r { name = shown_name r.name; rdlength = length (rdata_bytes r.rdata) }

-- The check before the data passes, and the check behind it.
read_body-Reads :
    (r : DnsRecord)
    → IsRecord r
    → Reads
        (read_body (shown_name r.name) r.type r.class r.ttl (length (rdata_bytes r.rdata)))
        (rdata_bytes r.rdata)
        (as_read r)
unfolding read_body remaining position
read_body-Reads r v = record {
  run = λ b h.
      let n : ℕ = length (rdata_bytes r.rdata) in
      let room : ltb ((b.len + 2 ^ 64 - b.pos) % 2 ^ 64) n ≡ false =
        ground (arith, h.fits, h.len_le) in
      let back : ((b.pos + n + 2 ^ 64 - b.pos) % 2 ^ 64 == n) ≡ true =
        ground (arith, h.fits, h.len_le) in
      let inner = (read_data-Reads r.type r.class r.ttl r.rdata v.data_is v.describes).run b h in
      rw (room, inner, back);
}

-- On the wire form of a record whose fields are in range, `read` stops behind it and returns the
-- record, with the root for an empty name and `rdlength` the number of its data bytes.
pub read_record-Reads :
    (r : DnsRecord) → IsRecord r → Reads read_record (record_bytes r) (as_read r)
unfolding read_record record_bytes
read_record-Reads r v = bind-Reads _ (read_owner-Reads r.name v.name_is) (
    bind-Reads _ (read_u16-Reads r.type v.type_lt) (
      bind-Reads _ (read_u16-Reads r.class v.class_lt) (
        bind-Reads _ (read_u32-Reads r.ttl v.ttl_lt) (
          bind-Reads _ (read_u16-Reads (length (rdata_bytes r.rdata)) v.size_lt)
            (read_body-Reads r v)))))
