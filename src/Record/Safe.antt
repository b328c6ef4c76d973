-- ===== src/Record/Safe.antt =====
-- Memory safety of reading and writing records, and the ranges of what a read returns.
use dns_server_cpp.Address.Words.{IsIpv4, ipv4_of_uint32-IsIpv4}
use dns_server_cpp.Buffer.Access.{position, remaining}
use dns_server_cpp.Buffer.NameBounds.{IsReadName, read_qname-IsSafe}
use dns_server_cpp.Buffer.Safe.{
  Any, IsSafe, bind-IsSafe, pure-IsSafe, raise_if-IsSafe, read_bytes-IsSafe, read_u16-IsSafe,
  read_u32-IsSafe, read_u8-IsSafe, test-IsSafe, then-IsSafe,
}
use dns_server_cpp.Buffer.State.{get_state, out_of_range, runtime_error}
use dns_server_cpp.Common.{
  ==_iff, ==→ne, [], ap, length, ltb, not, refl, suc, zero, ℕ, ◌<◌, ◌==◌, ◌^◌, ◌∷◌, ◌≡◌,
}
use dns_server_cpp.Question.Defs.{
  a_type, aaaa_type, cname_type, mx_type, ns_type, opt_type, soa_type,
}
use dns_server_cpp.Record.Defs.{
  DnsRecord, DnsRecordData, SoaRecord, a_record, aaaa_record, cname_record, mx_record, ns_record,
  opt_record, soa_record, unknown_record,
}
use dns_server_cpp.Record.Read.{
  bytes_since, opt_of, read_a_data, read_aaaa_data, read_body, read_cname_data, read_data,
  read_mx_data, read_ns_data, read_opt_data, read_record, read_soa_data, read_u8s,
  read_unknown_data,
}
use dns_server_cpp.Record.Reading.{Describes}
use dns_server_cpp.Record.Wire.{IsBytes}

read_u8s-IsSafe : (n : ℕ) → IsSafe (λ xs. (length xs ≡ n) × IsBytes xs) (read_u8s n)
unfolding read_u8s
read_u8s-IsSafe zero = pure-IsSafe [] (refl, tt)
read_u8s-IsSafe (suc n) =
    bind-IsSafe read_u8-IsSafe
      λ x h. bind-IsSafe (read_u8s-IsSafe n) λ xs k. pure-IsSafe (x ∷ xs) (ap suc k.0, (h, k.1))

pub record IsReadSoa (s : SoaRecord) : Type 0 where
  pub primary_is : IsReadName s.primary_name_server
  pub mailbox_is : IsReadName s.responsible_authority_mailbox
  pub serial_lt : s.serial_number < 2 ^ 32
  pub refresh_lt : s.refresh_interval < 2 ^ 32
  pub retry_lt : s.retry_interval < 2 ^ 32
  pub expire_lt : s.expire_limit < 2 ^ 32
  pub minimum_lt : s.minimum_ttl < 2 ^ 32

-- The ranges of data that was read under a length.
abbrev pub IsReadData : ℕ → DnsRecordData → Type 0
IsReadData l (a_record a) = IsIpv4 a
IsReadData l (aaaa_record a) = (length a.address ≡ 16) × IsBytes a.address
IsReadData l (cname_record n) = IsReadName n
IsReadData l (mx_record p n) = (p < 2 ^ 16) × IsReadName n
IsReadData l (ns_record n) = IsReadName n
IsReadData l (soa_record s) = IsReadSoa s
IsReadData l (opt_record o) = (length o.options_raw ≡ l) × IsBytes o.options_raw
IsReadData l (unknown_record bytes) = (length bytes ≡ l) × IsBytes bytes

-- A record as `read` returns it: its data is the alternative that its type names.
pub record IsReadRecord (r : DnsRecord) : Type 0 where
  pub name_is : IsReadName r.name
  pub type_lt : r.type < 2 ^ 16
  pub class_lt : r.class < 2 ^ 16
  pub ttl_lt : r.ttl < 2 ^ 32
  pub rdlength_lt : r.rdlength < 2 ^ 16
  pub data_is : IsReadData r.rdlength r.rdata
  pub describes : Describes r.type r.class r.ttl r.rdata

abbrev Fits : ℕ → ℕ → ℕ → ℕ → DnsRecordData → Type 0
Fits type class ttl l d = IsReadData l d × Describes type class ttl d

module _ (type class ttl l : ℕ) where
  soa_data-IsSafe : type ≡ soa_type → IsSafe (Fits type class ttl l) read_soa_data
  unfolding read_soa_data
  soa_data-IsSafe e = bind-IsSafe read_qname-IsSafe λ m hm. bind-IsSafe read_qname-IsSafe λ n hn.
      bind-IsSafe read_u32-IsSafe λ s hs. bind-IsSafe read_u32-IsSafe λ r hr.
        bind-IsSafe read_u32-IsSafe λ t ht. bind-IsSafe read_u32-IsSafe λ x hx.
          bind-IsSafe read_u32-IsSafe λ y hy. pure-IsSafe _ (
            record {
              primary_is = hm;
              mailbox_is = hn;
              serial_lt = hs;
              refresh_lt = hr;
              retry_lt = ht;
              expire_lt = hx;
              minimum_lt = hy;
            },
            e,
          )

  address_data-IsSafe :
      (type ≡ a_type → IsSafe (Fits type class ttl l) (read_a_data l))
      × (type ≡ aaaa_type → IsSafe (Fits type class ttl l) (read_aaaa_data l))
  unfolding read_a_data read_aaaa_data
  address_data-IsSafe = (
    λ e.
        then-IsSafe (raise_if-IsSafe (not (l == 4)) runtime_error)
          (bind-IsSafe read_u32-IsSafe λ ip _. pure-IsSafe _ (ipv4_of_uint32-IsIpv4 ip, e)),
    λ e.
        then-IsSafe (raise_if-IsSafe (not (l == 16)) runtime_error)
          (bind-IsSafe (read_u8s-IsSafe 16) λ xs h. pure-IsSafe _ (h, e)),
  )

  read_data-IsSafe : IsSafe (Fits type class ttl l) (read_data type class ttl l)
  unfolding read_data read_cname_data read_mx_data read_ns_data read_opt_data read_unknown_data
      opt_of
  read_data-IsSafe =
      test-IsSafe (type == a_type) (λ t. address_data-IsSafe.0 ((==_iff type a_type).0 t))
        λ n1.
          test-IsSafe (type == aaaa_type) (λ t. address_data-IsSafe.1 ((==_iff type aaaa_type).0 t))
            λ n2.
              test-IsSafe (type == cname_type)
                (λ t.
                  bind-IsSafe read_qname-IsSafe
                    λ n h. pure-IsSafe _ (h, (==_iff type cname_type).0 t))
                λ n3.
                  test-IsSafe (type == mx_type)
                    (λ t. bind-IsSafe read_u16-IsSafe λ p k.
                      bind-IsSafe read_qname-IsSafe
                        λ n h. pure-IsSafe _ ((k, h), (==_iff type mx_type).0 t))
                    λ n4.
                      test-IsSafe (type == ns_type)
                        (λ t.
                          bind-IsSafe read_qname-IsSafe
                            λ n h. pure-IsSafe _ (h, (==_iff type ns_type).0 t))
                        λ n5.
                          test-IsSafe (type == soa_type)
                            (λ t. soa_data-IsSafe ((==_iff type soa_type).0 t))
                            λ n6.
                              test-IsSafe (type == opt_type)
                                (λ t.
                                  bind-IsSafe (read_bytes-IsSafe l)
                                    λ xs h. pure-IsSafe _ (h, ((==_iff type opt_type).0 t, refl)))
                                λ n7. bind-IsSafe (read_bytes-IsSafe l) λ xs h. pure-IsSafe _ (
                                  h,
                                  (
                                    ==→ne type a_type n1,
                                    ==→ne type aaaa_type n2,
                                    ==→ne type cname_type n3,
                                    ==→ne type mx_type n4,
                                    ==→ne type ns_type n5,
                                    ==→ne type soa_type n6,
                                    ==→ne type opt_type n7,
                                  ),
                                )

get_state-IsSafe : IsSafe Any get_state
get_state-IsSafe = record { run = λ b v. (tt, v) }

-- Reading a record from a well-formed buffer never leaves the array and always ends; a record that
-- is returned has every field in range and the data that its type names.
pub read_record-IsSafe : IsSafe IsReadRecord read_record
unfolding read_record read_body
read_record-IsSafe = bind-IsSafe read_qname-IsSafe λ name hn. bind-IsSafe read_u16-IsSafe λ type ht.
    bind-IsSafe read_u16-IsSafe λ class hc. bind-IsSafe read_u32-IsSafe λ ttl hl.
      bind-IsSafe read_u16-IsSafe λ l hr. bind-IsSafe get_state-IsSafe λ b _.
        then-IsSafe (raise_if-IsSafe (ltb (remaining b) l) out_of_range) (
          bind-IsSafe (read_data-IsSafe type class ttl l) λ d hd.
            bind-IsSafe get_state-IsSafe λ b' _.
              then-IsSafe (raise_if-IsSafe (not (bytes_since (position b) b' == l)) runtime_error) (
                pure-IsSafe _ (record {
                  name_is = hn;
                  type_lt = ht;
                  class_lt = hc;
                  ttl_lt = hl;
                  rdlength_lt = hr;
                  data_is = hd.0;
                  describes = hd.1;
                })))
