-- ===== src/Record/WriteSafe.antt =====
-- Memory safety of writing records, whatever their fields hold.
use dns_server_cpp.Address.Defs.{to_uint32}
use dns_server_cpp.Buffer.Access.{write_all, write_u16}
use dns_server_cpp.Buffer.NameWire.{write_qname-IsSafe}
use dns_server_cpp.Buffer.Names.{is_root_name}
use dns_server_cpp.Buffer.Safe.{
  Any, IsSafe, bind-IsSafe, if-IsSafe, pure-IsSafe, raise_if-IsSafe, then-IsSafe, write_all-IsSafe,
  write_u16-IsSafe, write_u32-IsSafe,
}
use dns_server_cpp.Buffer.State.{length_error, ◌>>◌}
use dns_server_cpp.Common.{List, ltb, ℕ, ◌+◌}
use dns_server_cpp.Record.Defs.{
  DnsRecord, DnsRecordData, SoaRecord, a_record, aaaa_record, cname_record, mx_record, ns_record,
  opt_record, soa_record, unknown_record,
}
use dns_server_cpp.Record.Write.{
  qname_wire_length, uint16_max, write_data, write_mx_data, write_name_data, write_record,
  write_soa_data,
}

qname_wire_length-IsSafe : (n : List ℕ) → IsSafe Any (qname_wire_length n)
unfolding qname_wire_length
qname_wire_length-IsSafe n =
    if-IsSafe (is_root_name n) (pure-IsSafe 1 tt)
      (then-IsSafe (raise_if-IsSafe _ length_error) (pure-IsSafe _ tt))

raw_data-IsSafe : (n : ℕ) (xs : List ℕ) → IsSafe Any (write_u16 n >> write_all xs)
raw_data-IsSafe n xs = then-IsSafe (write_u16-IsSafe n) (write_all-IsSafe xs)

name_data-IsSafe : (n : List ℕ) → IsSafe Any (write_name_data n)
name_data-IsSafe n =
    bind-IsSafe (qname_wire_length-IsSafe n)
      λ k _. then-IsSafe (write_u16-IsSafe k) (write_qname-IsSafe n)

mx_data-IsSafe : (p : ℕ) (n : List ℕ) → IsSafe Any (write_mx_data p n)
mx_data-IsSafe p n = bind-IsSafe (qname_wire_length-IsSafe n) λ k _.
    then-IsSafe (write_u16-IsSafe _) (then-IsSafe (write_u16-IsSafe p) (write_qname-IsSafe n))

soa_data-IsSafe : (s : SoaRecord) → IsSafe Any (write_soa_data s)
soa_data-IsSafe s = bind-IsSafe (qname_wire_length-IsSafe s.primary_name_server) λ m _.
    bind-IsSafe (qname_wire_length-IsSafe s.responsible_authority_mailbox) λ n _.
      then-IsSafe (raise_if-IsSafe (ltb uint16_max (m + n + 20)) length_error) (
        then-IsSafe (write_u16-IsSafe (m + n + 20)) (
          then-IsSafe (write_qname-IsSafe s.primary_name_server) (
            then-IsSafe (write_qname-IsSafe s.responsible_authority_mailbox) (
              then-IsSafe (write_u32-IsSafe s.serial_number) (
                then-IsSafe (write_u32-IsSafe s.refresh_interval) (
                  then-IsSafe (write_u32-IsSafe s.retry_interval) (
                    then-IsSafe (write_u32-IsSafe s.expire_limit)
                      (write_u32-IsSafe s.minimum_ttl))))))))

write_data-IsSafe : (d : DnsRecordData) → IsSafe Any (write_data d)
unfolding write_data
write_data-IsSafe (a_record a) = then-IsSafe (write_u16-IsSafe 4) (write_u32-IsSafe (to_uint32 a))
write_data-IsSafe (aaaa_record a) = raw_data-IsSafe 16 a.address
write_data-IsSafe (cname_record n) = name_data-IsSafe n
write_data-IsSafe (mx_record p n) = mx_data-IsSafe p n
write_data-IsSafe (ns_record n) = name_data-IsSafe n
write_data-IsSafe (soa_record s) = soa_data-IsSafe s
write_data-IsSafe (opt_record o) = raw_data-IsSafe _ o.options_raw
write_data-IsSafe (unknown_record bytes) = raw_data-IsSafe _ bytes

pub write_record-IsSafe : (r : DnsRecord) → IsSafe Any (write_record r)
unfolding write_record
write_record-IsSafe r = then-IsSafe (write_qname-IsSafe r.name) (
    then-IsSafe (write_u16-IsSafe r.type) (
      then-IsSafe (write_u16-IsSafe r.class)
        (then-IsSafe (write_u32-IsSafe r.ttl) (write_data-IsSafe r.rdata))))
