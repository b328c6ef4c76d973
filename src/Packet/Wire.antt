-- ===== src/Packet/Wire.antt =====
-- The wire form of a packet: `write` writes it and `read` gives the packet back.
use dns_server_cpp.Buffer.Access.{write_all}
use dns_server_cpp.Buffer.Reading.{Reads, bind-Reads, last-Reads, pure-Reads}
use dns_server_cpp.Buffer.Wire.{write_all-append}
use dns_server_cpp.Common.{
  All, List, Option, [], arith, false, length, ltb, map, none, refl, some, ℕ, ◌%◌, ◌++◌, ◌<◌, ◌^◌,
  ◌∷◌, ◌≡◌, ◌≤◌,
}
use dns_server_cpp.Header.Wire.{IsHeader, header_bytes, read_header-Reads, write_header_wire}
use dns_server_cpp.Packet.Defs.{
  DnsPacket, question_count, read_packet, read_question_if, read_records, read_sections, set_counts,
  write_packet, write_question_if, write_records,
}
use dns_server_cpp.Question.Defs.{DnsQuestion}
use dns_server_cpp.Question.Wire.{
  IsQuestion, question_bytes, read_question-Reads, write_question_wire,
}
use dns_server_cpp.Record.Defs.{DnsRecord}
use dns_server_cpp.Record.Reading.{IsRecord, as_read, read_record-Reads}
use dns_server_cpp.Record.Wire.{record_bytes, write_record_wire}

unfoldable pub records_bytes : List DnsRecord → List ℕ
records_bytes [] = []
records_bytes (r ∷ rs) = record_bytes r ++ records_bytes rs

unfoldable pub question_if_bytes : Option DnsQuestion → List ℕ
question_if_bytes none = []
question_if_bytes (some q) = question_bytes q

-- The header with the counts of the sections, then the question and the three sections.
unfoldable pub packet_bytes : DnsPacket → List ℕ
packet_bytes p =
    header_bytes (set_counts p).header
    ++ (question_if_bytes p.question
        ++ (records_bytes p.answers
            ++ (records_bytes p.authorities ++ records_bytes p.additionals)))

abbrev pub IsQuestionIf : Option DnsQuestion → Type 0
IsQuestionIf none = Unit
IsQuestionIf (some q) = IsQuestion q

-- What makes a packet come back as it was written: fields in range, sections whose lengths the
-- counts can hold.
pub record IsPacket (p : DnsPacket) : Type 0 where
  pub id_lt : p.header.id < 2 ^ 16
  pub flags_lt : p.header.flags < 2 ^ 16
  pub question_is : IsQuestionIf p.question
  pub answers_are : All IsRecord p.answers
  pub authorities_are : All IsRecord p.authorities
  pub additionals_are : All IsRecord p.additionals
  pub answers_lt : length p.answers < 2 ^ 16
  pub authorities_lt : length p.authorities < 2 ^ 16
  pub additionals_lt : length p.additionals < 2 ^ 16

-- The packet as `read` returns it after `write`.
unfoldable pub sent_packet : DnsPacket → DnsPacket
sent_packet p = record (set_counts p) {
  answers = map as_read p.answers;
  authorities = map as_read p.authorities;
  additionals = map as_read p.additionals;
}

write_records_wire :
    (rs : List DnsRecord) → All IsRecord rs → write_records rs ≡ write_all (records_bytes rs)
unfolding write_records records_bytes write_all
write_records_wire [] v = refl
write_records_wire (r ∷ rs) v =
    rw (write_record_wire r v.0.name_is v.0.data_is, write_records_wire rs v.1)
      (write_all-append (record_bytes r) (records_bytes rs))

write_question_if_wire :
    (q : Option DnsQuestion)
    → IsQuestionIf q
    → write_question_if q ≡ write_all (question_if_bytes q)
unfolding write_question_if question_if_bytes write_all
write_question_if_wire none v = refl
write_question_if_wire (some q) v = write_question_wire q v.name_is

-- `write` writes the wire form of the packet.
pub write_packet_wire : (p : DnsPacket) → IsPacket p → write_packet p ≡ write_all (packet_bytes p)
unfolding write_packet packet_bytes
write_packet_wire p v = simp (
  write_header_wire,
  write_question_if_wire p.question v.question_is,
  write_records_wire p.answers v.answers_are,
  write_records_wire p.authorities v.authorities_are,
  write_records_wire p.additionals v.additionals_are,
  write_all-append,
)

read_records-Reads :
    (rs : List DnsRecord)
    → All IsRecord rs
    → Reads (read_records (length rs)) (records_bytes rs) (map as_read rs)
unfolding read_records records_bytes
read_records-Reads [] v = pure-Reads []
read_records-Reads (r ∷ rs) v =
    bind-Reads _ (read_record-Reads r v.0)
      (last-Reads (λ ys. as_read r ∷ ys) (read_records-Reads rs v.1))

question_count_le : (q : Option DnsQuestion) → question_count q ≤ 1
unfolding question_count
question_count_le none = omega arith
question_count_le (some q) = omega arith

read_question_if-Reads :
    (q : Option DnsQuestion)
    → IsQuestionIf q
    → Reads (read_question_if (question_count q)) (question_if_bytes q) q
unfolding read_question_if question_if_bytes question_count
read_question_if-Reads none v = pure-Reads none
read_question_if-Reads (some q) v = last-Reads (λ x. some x) (read_question-Reads q v)

pub set_counts-IsHeader : (p : DnsPacket) → IsPacket p → IsHeader (set_counts p).header
unfolding set_counts
set_counts-IsHeader p v = record {
  id_lt = v.id_lt;
  flags_lt = v.flags_lt;
  qdcount_lt = omega (arith, question_count_le p.question);
  ancount_lt = omega arith;
  nscount_lt = omega arith;
  arcount_lt = omega arith;
}

read_sections-Reads :
    (p : DnsPacket)
    → IsPacket p
    → Reads
        (read_sections (set_counts p).header)
        (question_if_bytes p.question
          ++ (records_bytes p.answers
              ++ (records_bytes p.authorities ++ records_bytes p.additionals)))
        (sent_packet p)
unfolding read_sections sent_packet set_counts
read_sections-Reads p v =
    let counts : (length p.answers % 2 ^ 16 ≡ length p.answers)
        × (length p.authorities % 2 ^ 16 ≡ length p.authorities)
        × (length p.additionals % 2 ^ 16 ≡ length p.additionals) =
      (
        omega (arith, v.answers_lt),
        omega (arith, v.authorities_lt),
        omega (arith, v.additionals_lt),
      ) in
    rw (counts.0, counts.1, counts.2)
      (bind-Reads _ (read_question_if-Reads p.question v.question_is) (
        bind-Reads _ (read_records-Reads p.answers v.answers_are) (
          bind-Reads _ (read_records-Reads p.authorities v.authorities_are)
            (last-Reads _ (read_records-Reads p.additionals v.additionals_are)))))

one_question_lem : (p : DnsPacket) → ltb 1 (set_counts p).header.qdcount ≡ false
unfolding set_counts
one_question_lem p = ground (arith, question_count_le p.question)

pub read_packet-Reads :
    (p : DnsPacket) → IsPacket p → Reads read_packet (packet_bytes p) (sent_packet p)
unfolding read_packet packet_bytes
read_packet-Reads p v =
    bind-Reads _ (read_header-Reads _ (set_counts-IsHeader p v))
      (rw (one_question_lem p) (read_sections-Reads p v))
