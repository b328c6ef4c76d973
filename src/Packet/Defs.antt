-- ===== src/Packet/Defs.antt =====
-- DnsPacket and EdnsInfo: the sections of a packet, reading, writing, and the EDNS helpers.
use dns_server_cpp.Buffer.State.{Action, pure, raise_if, runtime_error, ◌>>=◌, ◌>>◌}
use dns_server_cpp.Common.{
  Bool, List, Option, [], bit_or, if◌then◌else◌, length, ltb, max, min, none, some, suc, true, zero,
  ℕ, ◌%◌, ◌*◌, ◌++◌, ◌==◌, ◌^◌, ◌∷◌,
}
use dns_server_cpp.Header.Defs.{DnsHeader, empty_header, read_header, write_header}
use dns_server_cpp.Question.Defs.{DnsQuestion, opt_type, read_question, write_question}
use dns_server_cpp.Record.Defs.{DnsRecord, OptRecord, get_opt_record, opt_record}
use dns_server_cpp.Record.Read.{read_record}
use dns_server_cpp.Record.Write.{write_record}

pub record EdnsInfo : Type 0 where
  pub edns_present : Bool
  pub max_payload_size : ℕ
  pub dnssec_ok : Bool
  pub version : ℕ

pub record DnsPacket : Type 0 where
  pub header : DnsHeader
  pub question : Option DnsQuestion
  pub answers : List DnsRecord
  pub authorities : List DnsRecord
  pub additionals : List DnsRecord

-- `DnsPacket() = default`.
abbrev pub empty_packet : DnsPacket
empty_packet = record {
  header = empty_header;
  question = none;
  answers = [];
  authorities = [];
  additionals = [];
}

-- The loops that read a section, on the count of records left.
unfoldable pub read_records : ℕ → Action (List DnsRecord)
read_records zero = pure []
read_records (suc n) = do r ← read_record; rs ← read_records n; pure (r ∷ rs)

unfoldable pub read_question_if : ℕ → Action (Option DnsQuestion)
read_question_if qdcount = if qdcount == 1 then (do q ← read_question; pure (some q)) else pure none

-- The sections behind a header.
unfoldable pub read_sections : DnsHeader → Action DnsPacket
read_sections h = do
  question ← read_question_if h.qdcount
  answers ← read_records h.ancount
  authorities ← read_records h.nscount
  additionals ← read_records h.arcount
  pure (record {
    header = h;
    question = question;
    answers = answers;
    authorities = authorities;
    additionals = additionals;
  })

unfoldable pub read_packet : Action DnsPacket
read_packet = do h ← read_header; raise_if (ltb 1 h.qdcount) runtime_error; read_sections h

-- One for a question that is there.
unfoldable pub question_count : Option DnsQuestion → ℕ
question_count none = 0
question_count (some q) = 1

-- The packet as `write` leaves it: the counts of its header are those of its sections.
unfoldable pub set_counts : DnsPacket → DnsPacket
set_counts p = record p {
  header = record (p.header) {
    qdcount = question_count p.question;
    ancount = length p.answers % 2 ^ 16;
    nscount = length p.authorities % 2 ^ 16;
    arcount = length p.additionals % 2 ^ 16;
  };
}

unfoldable pub write_records : List DnsRecord → Action (Unit {0})
write_records [] = pure tt
write_records (r ∷ rs) = do write_record r; write_records rs

unfoldable pub write_question_if : Option DnsQuestion → Action (Unit {0})
write_question_if none = pure tt
write_question_if (some q) = write_question q

unfoldable pub write_packet : DnsPacket → Action (Unit {0})
write_packet p = do
  write_header (set_counts p).header
  write_question_if p.question
  write_records p.answers
  write_records p.authorities
  write_records p.additionals

unfoldable pub edns_of : OptRecord → EdnsInfo
edns_of opt = record {
  edns_present = true;
  max_payload_size = min (max 512 opt.udp_payload_size) 1232;
  dnssec_ok = opt.dnssec_ok;
  version = opt.version;
}

-- An OPT record that was found ends the search.
abbrev pub found_or : Option OptRecord → Option EdnsInfo → Option EdnsInfo
found_or (some opt) later = some (edns_of opt)
found_or none later = later

-- The first OPT record of the additional section.
unfoldable pub edns_in : List DnsRecord → Option EdnsInfo
edns_in [] = none
edns_in (r ∷ rs) = found_or (get_opt_record r) (edns_in rs)

unfoldable pub get_edns_info : DnsPacket → Option EdnsInfo
get_edns_info p = edns_in p.additionals

-- The TTL word of an OPT record.
unfoldable pub opt_ttl : ℕ → ℕ → Bool → ℕ
opt_ttl extended_rcode version dnssec_ok =
    bit_or (bit_or (extended_rcode * 2 ^ 24) (version * 2 ^ 16)) (if dnssec_ok then 0x8000 else 0)

-- The record that `create_additional_opt_record` builds.
unfoldable pub opt_additional : ℕ → ℕ → ℕ → Bool → DnsRecord
opt_additional udp_payload_size extended_rcode version dnssec_ok = record {
  name = [];
  type = opt_type;
  class = udp_payload_size;
  ttl = opt_ttl extended_rcode version dnssec_ok;
  rdlength = 0;
  rdata = opt_record (record {
    udp_payload_size = udp_payload_size;
    extended_rcode = extended_rcode;
    version = version;
    dnssec_ok = dnssec_ok;
    options_raw = [];
  });
}

unfoldable pub create_additional_opt_record : ℕ → ℕ → ℕ → Bool → DnsPacket → DnsPacket
create_additional_opt_record udp_payload_size extended_rcode version dnssec_ok p = record p {
  additionals =
      p.additionals ++ (opt_additional udp_payload_size extended_rcode version dnssec_ok ∷ []);
}

abbrev pub set_question : DnsQuestion → DnsPacket → DnsPacket
set_question q p = record p { question = some q }
