-- ===== src/Packet/RoundTrip.antt =====
-- A whole packet written into a fresh buffer: it comes back, or it does not fit and the write throws.
use dns_server_cpp.Buffer.Access.{seek}
use dns_server_cpp.Buffer.Contents.{written-Reads}
use dns_server_cpp.Buffer.NameWire.{qname_bytes}
use dns_server_cpp.Buffer.Owners.{qname_bytes-bytes}
use dns_server_cpp.Buffer.Safe.{IsValid}
use dns_server_cpp.Buffer.State.{Action, BytePacketBuffer, length_error, ok, throws, ◌>>◌}
use dns_server_cpp.Buffer.Wire.{put_bytes, u16_bytes, write_all_full}
use dns_server_cpp.Common.{
  All, List, Option, [], ap, arith, length, none, some, ◌++◌, ◌+◌, ◌<◌, ◌∙◌, ◌∷◌, ◌≡◌, ◌≤◌,
}
use dns_server_cpp.Header.Defs.{DnsHeader}
use dns_server_cpp.Header.Wire.{IsHeader, header_bytes}
use dns_server_cpp.Packet.Defs.{DnsPacket, read_packet, set_counts, write_packet}
use dns_server_cpp.Packet.Wire.{
  IsPacket, IsQuestionIf, packet_bytes, question_if_bytes, read_packet-Reads, records_bytes,
  sent_packet, set_counts-IsHeader, write_packet_wire,
}
use dns_server_cpp.Question.Defs.{DnsQuestion}
use dns_server_cpp.Record.Bytes.{IsBytes-append, record_bytes-IsBytes}
use dns_server_cpp.Record.Defs.{DnsRecord}
use dns_server_cpp.Record.Reading.{IsRecord}
use dns_server_cpp.Record.Wire.{IsBytes, record_bytes}

records_bytes-IsBytes : (rs : List DnsRecord) → All IsRecord rs → IsBytes (records_bytes rs)
unfolding records_bytes
records_bytes-IsBytes [] v = tt
records_bytes-IsBytes (r ∷ rs) v =
    IsBytes-append (record_bytes r) (records_bytes rs)
      (record_bytes-IsBytes r v.0.name_is v.0.data_is v.0.type_lt v.0.class_lt v.0.ttl_lt
        v.0.size_lt)
      (records_bytes-IsBytes rs v.1)

question_if_bytes-IsBytes :
    (q : Option DnsQuestion) → IsQuestionIf q → IsBytes (question_if_bytes q)
unfolding question_if_bytes
question_if_bytes-IsBytes none v = tt
question_if_bytes-IsBytes (some q) v =
    IsBytes-append (qname_bytes q.name) (u16_bytes q.type ++ u16_bytes q.class)
      (qname_bytes-bytes q.name v.name_is) (omega (arith, v.type_lt, v.class_lt))

header_bytes-IsBytes : (h : DnsHeader) → IsHeader h → IsBytes (header_bytes h)
header_bytes-IsBytes h v =
    omega (arith, v.id_lt, v.flags_lt, v.qdcount_lt, v.ancount_lt, v.nscount_lt, v.arcount_lt)

pub packet_bytes-IsBytes : (p : DnsPacket) → IsPacket p → IsBytes (packet_bytes p)
unfolding packet_bytes
packet_bytes-IsBytes p v =
    let later : IsBytes (records_bytes p.authorities ++ records_bytes p.additionals) =
      IsBytes-append (records_bytes p.authorities) (records_bytes p.additionals)
        (records_bytes-IsBytes p.authorities v.authorities_are)
        (records_bytes-IsBytes p.additionals v.additionals_are) in
    let sections : IsBytes
        (records_bytes p.answers ++ (records_bytes p.authorities ++ records_bytes p.additionals)) =
      IsBytes-append (records_bytes p.answers)
        (records_bytes p.authorities ++ records_bytes p.additionals)
        (records_bytes-IsBytes p.answers v.answers_are) later in
    IsBytes-append (header_bytes (set_counts p).header)
      (question_if_bytes p.question
        ++ (records_bytes p.answers
            ++ (records_bytes p.authorities ++ records_bytes p.additionals)))
      (header_bytes-IsBytes _ (set_counts-IsHeader p v))
      (IsBytes-append (question_if_bytes p.question)
        (records_bytes p.answers ++ (records_bytes p.authorities ++ records_bytes p.additionals))
        (question_if_bytes-IsBytes p.question v.question_is) sections)

-- A packet whose fields are in range and whose wire form fits a well-formed buffer, written and
-- read back from the old position, comes back with the counts of its sections in its header, the
-- root for empty owner names and `rdlength` filled in; the buffer then holds the wire form behind
-- what it held.
pub packet_round_trip :
    (p : DnsPacket) (b : BytePacketBuffer)
    → IsPacket p
    → IsValid b
    → b.pos + length (packet_bytes p) ≤ b.max_capacity
    → (write_packet p >> (seek b.pos >> read_packet)) b
      ≡ ok (sent_packet p) (put_bytes (packet_bytes p) b)
packet_round_trip p b v valid fits =
    written-Reads (write_packet_wire p v) (read_packet-Reads p v) (packet_bytes-IsBytes p v) b valid
      fits

-- A packet whose fields are in range but whose wire form does not fit behind the position of a
-- well-formed buffer makes `write` throw `length_error`.
pub packet_overflow :
    (p : DnsPacket) (b : BytePacketBuffer)
    → IsPacket p
    → IsValid b
    → b.pos ≤ b.max_capacity
    → b.max_capacity < b.pos + length (packet_bytes p)
    → (b' : BytePacketBuffer) × (write_packet p b ≡ throws length_error b')
packet_overflow p b v valid here full =
    let (b', e) = write_all_full (packet_bytes p) b here full valid.capacity_le in
    (b', ap (λ (m : Action (Unit {0})). m b) (write_packet_wire p v) ∙ e)
