-- ===== src/Record/Wire.antt =====
-- The wire form of a record, and that `write` writes it.
use dns_server_cpp.Address.Defs.{to_uint32}
use dns_server_cpp.Address.Words.{IsIpv4}
use dns_server_cpp.Buffer.Access.{write_all, write_u16, write_u32}
use dns_server_cpp.Buffer.NameReading.{IsName}
use dns_server_cpp.Buffer.NameWire.{qname_bytes, write_qname_wire}
use dns_server_cpp.Buffer.Names.{write_qname}
use dns_server_cpp.Buffer.Owners.{IsName-IsWritable, IsOwner, IsOwner-IsWritable}
use dns_server_cpp.Buffer.State.{Action, length_error, raise_if, ◌>>=◌, ◌>>◌}
use dns_server_cpp.Buffer.Wire.{
  u16_bytes, u32_bytes, write_all-append, write_u16_wire, write_u32_wire,
}
use dns_server_cpp.Common.{
  All, List, ap, arith, false, inl, inr, length, length-append, ltb, ℕ, ◌%◌, ◌++◌, ◌+◌, ◌<◌, ◌^◌,
  ◌∙◌, ◌≡◌, ◌≤◌,
}
use dns_server_cpp.Record.Defs.{
  DnsRecord, DnsRecordData, SoaRecord, a_record, aaaa_record, cname_record, mx_record, ns_record,
  opt_record, soa_record, unknown_record,
}
use dns_server_cpp.Record.Lengths.{length-qname_bytes, qname_wire_length_lem}
use dns_server_cpp.Record.Write.{
  qname_wire_length, uint16_max, write_data, write_mx_data, write_name_data, write_raw_data,
  write_record, write_soa_data,
}

abbrev pub rdata_bytes : DnsRecordData → List ℕ
rdata_bytes (a_record a) = u32_bytes (to_uint32 a)
rdata_bytes (aaaa_record a) = a.address
rdata_bytes (cname_record n) = qname_bytes n
rdata_bytes (mx_record p n) = u16_bytes p ++ qname_bytes n
rdata_bytes (ns_record n) = qname_bytes n
rdata_bytes (soa_record s) =
    qname_bytes s.primary_name_server
    ++ (qname_bytes s.responsible_authority_mailbox
        ++ (u32_bytes s.serial_number
            ++ (u32_bytes s.refresh_interval
                ++ (u32_bytes s.retry_interval
                    ++ (u32_bytes s.expire_limit ++ u32_bytes s.minimum_ttl)))))
rdata_bytes (opt_record o) = o.options_raw
rdata_bytes (unknown_record bytes) = bytes

-- The data behind its length.
abbrev pub counted_bytes : List ℕ → List ℕ
counted_bytes xs = u16_bytes (length xs) ++ xs

unfoldable pub record_bytes : DnsRecord → List ℕ
record_bytes r =
    qname_bytes r.name
    ++ (u16_bytes r.type
        ++ (u16_bytes r.class ++ (u32_bytes r.ttl ++ counted_bytes (rdata_bytes r.rdata))))

abbrev pub IsBytes : List ℕ → Type 0
IsBytes = All (λ x. x < 256)

pub record IsSoa (s : SoaRecord) : Type 0 where
  pub primary_is : IsName s.primary_name_server
  pub mailbox_is : IsName s.responsible_authority_mailbox
  pub serial_lt : s.serial_number < 2 ^ 32
  pub refresh_lt : s.refresh_interval < 2 ^ 32
  pub retry_lt : s.retry_interval < 2 ^ 32
  pub expire_lt : s.expire_limit < 2 ^ 32
  pub minimum_lt : s.minimum_ttl < 2 ^ 32

-- The ranges of the fields of each alternative.
abbrev pub IsData : DnsRecordData → Type 0
IsData (a_record a) = IsIpv4 a
IsData (aaaa_record a) = (length a.address ≡ 16) × IsBytes a.address
IsData (cname_record n) = IsName n
IsData (mx_record p n) = (p < 2 ^ 16) × IsName n
IsData (ns_record n) = IsName n
IsData (soa_record s) = IsSoa s
IsData (opt_record o) = (length o.options_raw < 2 ^ 16) × IsBytes o.options_raw
IsData (unknown_record bytes) = (length bytes < 2 ^ 16) × IsBytes bytes

length-name_le : (n : List ℕ) → IsName n → length (qname_bytes n) ≤ 256
length-name_le n (inl e) = rw e (unfold qname_bytes in omega arith)
length-name_le n (inr (v, small, _)) = omega (arith, length-qname_bytes n v)

-- What follows once the length of a name is known.
after_length :
    {A : Type 0} (n : List ℕ) (next : ℕ → Action A)
    → IsName n
    → (qname_wire_length n >>= next) ≡ next (length (qname_bytes n))
after_length n next h = ap (λ (m : Action ℕ). m >>= next) (qname_wire_length_lem n h)

write_name_data_wire :
    (n : List ℕ) → IsName n → write_name_data n ≡ write_all (counted_bytes (qname_bytes n))
write_name_data_wire n h =
    let written : (write_u16 (length (qname_bytes n)) >> write_qname n)
        ≡ write_all (counted_bytes (qname_bytes n)) =
      simp (write_qname_wire n (IsName-IsWritable n h), write_u16_wire, write_all-append) in
    after_length n (λ k. write_u16 k >> write_qname n) h ∙ written

write_mx_data_wire :
    (p : ℕ) (n : List ℕ)
    → IsName n
    → write_mx_data p n ≡ write_all (counted_bytes (u16_bytes p ++ qname_bytes n))
write_mx_data_wire p n h =
    let size : (2 + length (qname_bytes n)) % 2 ^ 16 ≡ length (u16_bytes p ++ qname_bytes n) =
      omega (arith, length-name_le n h) in
    let written : (write_u16 ((2 + length (qname_bytes n)) % 2 ^ 16)
          >> (write_u16 p >> write_qname n))
        ≡ write_all (counted_bytes (u16_bytes p ++ qname_bytes n)) =
      rw size
        (simp (write_qname_wire n (IsName-IsWritable n h), write_u16_wire, write_all-append)) in
    after_length n (λ k. write_u16 ((2 + k) % 2 ^ 16) >> (write_u16 p >> write_qname n)) h ∙ written

write_raw_data_wire :
    (xs : List ℕ) → length xs < 2 ^ 16 → write_raw_data xs ≡ write_all (counted_bytes xs)
write_raw_data_wire xs h =
    let fits : length xs % 2 ^ 16 ≡ length xs = omega arith in
    rw (fits, write_u16_wire (length xs)) (write_all-append (u16_bytes (length xs)) xs)

-- The five words at the end of SOA data.
abbrev pub soa_words : SoaRecord → List ℕ
soa_words s =
    u32_bytes s.serial_number
    ++ (u32_bytes s.refresh_interval
        ++ (u32_bytes s.retry_interval ++ (u32_bytes s.expire_limit ++ u32_bytes s.minimum_ttl)))

abbrev write_soa_words : SoaRecord → Action (Unit {0})
write_soa_words s = do
  write_u32 s.serial_number
  write_u32 s.refresh_interval
  write_u32 s.retry_interval
  write_u32 s.expire_limit
  write_u32 s.minimum_ttl

write_soa_words_wire : (s : SoaRecord) → write_soa_words s ≡ write_all (soa_words s)
write_soa_words_wire s = simp (write_u32_wire, write_all-append)

-- The body of SOA data once the lengths of the two names are known.
abbrev write_soa_body : SoaRecord → ℕ → Action (Unit {0})
write_soa_body s n = do
  raise_if (ltb uint16_max n) length_error
  write_u16 n
  write_qname s.primary_name_server
  write_qname s.responsible_authority_mailbox
  write_soa_words s

write_soa_data_wire :
    (s : SoaRecord)
    → IsSoa s
    → write_soa_data s ≡ write_all (counted_bytes (rdata_bytes (soa_record s)))
write_soa_data_wire s v =
    let m : List ℕ = qname_bytes s.primary_name_server in
    let n : List ℕ = qname_bytes s.responsible_authority_mailbox in
    let words : length (n ++ soa_words s) ≡ length n + 20 = length-append n (soa_words s) in
    let size : length m + length n + 20 ≡ length (m ++ (n ++ soa_words s)) =
      omega (arith, length-append m (n ++ soa_words s), words) in
    let small : ltb uint16_max (length (m ++ (n ++ soa_words s))) ≡ false =
      ground (arith, size, length-name_le _ v.primary_is, length-name_le _ v.mailbox_is) in
    let written : write_soa_body s (length (m ++ (n ++ soa_words s)))
        ≡ write_all (counted_bytes (m ++ (n ++ soa_words s))) =
      rw (small, write_soa_words_wire s)
        (simp (
          write_qname_wire s.primary_name_server (IsName-IsWritable _ v.primary_is),
          write_qname_wire s.responsible_authority_mailbox (IsName-IsWritable _ v.mailbox_is),
          write_u16_wire,
          write_all-append,
        )) in
    after_length s.primary_name_server _ v.primary_is
    ∙ after_length s.responsible_authority_mailbox _ v.mailbox_is
    ∙ ap (write_soa_body s) size
    ∙ written

-- For data in range `writeData` writes the bytes of the data behind their number.
pub write_data_wire :
    (d : DnsRecordData) → IsData d → write_data d ≡ write_all (counted_bytes (rdata_bytes d))
unfolding write_data
write_data_wire (a_record a) v = simp (write_u16_wire, write_u32_wire, write_all-append)
write_data_wire (aaaa_record a) v = rw v.0 (simp (write_u16_wire, write_all-append))
write_data_wire (cname_record n) v = write_name_data_wire n v
write_data_wire (mx_record p n) v = write_mx_data_wire p n v.1
write_data_wire (ns_record n) v = write_name_data_wire n v
write_data_wire (soa_record s) v = write_soa_data_wire s v
write_data_wire (opt_record o) v = write_raw_data_wire o.options_raw v.0
write_data_wire (unknown_record bytes) v = write_raw_data_wire bytes v.0

pub write_record_wire :
    (r : DnsRecord) → IsOwner r.name → IsData r.rdata → write_record r ≡ write_all (record_bytes r)
unfolding write_record record_bytes
write_record_wire r n v = rw (write_data_wire r.rdata v) (
    simp (
      write_qname_wire r.name (IsOwner-IsWritable r.name n),
      write_u16_wire,
      write_u32_wire,
      write_all-append,
    ))
