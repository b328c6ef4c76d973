-- ===== src/Header/Wire.antt =====
-- The header on the wire: six big-endian words, written and read back.
use dns_server_cpp.Buffer.Access.{write_all}
use dns_server_cpp.Buffer.Reading.{Reads, bind-Reads, pure-Reads, read_u16-Reads}
use dns_server_cpp.Buffer.Safe.{
  Any, IsSafe, bind-IsSafe, pure-IsSafe, read_u16-IsSafe, write_all-IsSafe,
}
use dns_server_cpp.Buffer.Wire.{u16_bytes, write_all-append, write_u16_wire}
use dns_server_cpp.Common.{List, ℕ, ◌++◌, ◌<◌, ◌^◌, ◌≡◌}
use dns_server_cpp.Header.Defs.{DnsHeader, read_header, write_header}

abbrev pub header_bytes : DnsHeader → List ℕ
header_bytes h =
    u16_bytes h.id
    ++ u16_bytes h.flags
    ++ u16_bytes h.qdcount
    ++ u16_bytes h.ancount
    ++ u16_bytes h.nscount
    ++ u16_bytes h.arcount

-- Every field is a 16-bit number.
pub record IsHeader (h : DnsHeader) : Type 0 where
  pub id_lt : h.id < 2 ^ 16
  pub flags_lt : h.flags < 2 ^ 16
  pub qdcount_lt : h.qdcount < 2 ^ 16
  pub ancount_lt : h.ancount < 2 ^ 16
  pub nscount_lt : h.nscount < 2 ^ 16
  pub arcount_lt : h.arcount < 2 ^ 16

pub write_header_wire : (h : DnsHeader) → write_header h ≡ write_all (header_bytes h)
unfolding write_header
write_header_wire h = simp (write_u16_wire, write_all-append)

pub read_header-Reads : (h : DnsHeader) → IsHeader h → Reads read_header (header_bytes h) h
unfolding read_header
read_header-Reads h v = bind-Reads _ (read_u16-Reads h.id v.id_lt) (
    bind-Reads _ (read_u16-Reads h.flags v.flags_lt) (
      bind-Reads _ (read_u16-Reads h.qdcount v.qdcount_lt) (
        bind-Reads _ (read_u16-Reads h.ancount v.ancount_lt) (
          bind-Reads _ (read_u16-Reads h.nscount v.nscount_lt)
            (bind-Reads _ (read_u16-Reads h.arcount v.arcount_lt) (pure-Reads h))))))

pub read_header-IsSafe : IsSafe IsHeader read_header
unfolding read_header
read_header-IsSafe = bind-IsSafe read_u16-IsSafe λ id a. bind-IsSafe read_u16-IsSafe λ flags b.
    bind-IsSafe read_u16-IsSafe λ qd c. bind-IsSafe read_u16-IsSafe λ an d.
      bind-IsSafe read_u16-IsSafe λ ns e. bind-IsSafe read_u16-IsSafe λ ar f.
        pure-IsSafe _ (record {
          id_lt = a;
          flags_lt = b;
          qdcount_lt = c;
          ancount_lt = d;
          nscount_lt = e;
          arcount_lt = f;
        })

pub write_header-IsSafe : (h : DnsHeader) → IsSafe Any (write_header h)
write_header-IsSafe h = rw (write_header_wire h) (write_all-IsSafe (header_bytes h))
