-- ===== src/Server/Answers.antt =====
-- From the bytes of a query to the bytes of its answer.
use dns_server_cpp.Buffer.Access.{with_capacity}
use dns_server_cpp.Buffer.Contents.{put_bytes-Holds}
use dns_server_cpp.Buffer.Reading.{Holds}
use dns_server_cpp.Buffer.Safe.{with_capacity-IsValid}
use dns_server_cpp.Buffer.State.{
  Action, BytePacketBuffer, at, default_buffer_size, max_buffer_size, ok,
}
use dns_server_cpp.Buffer.Wire.{put_bytes, write_all_fits}
use dns_server_cpp.Common.{
  List, ap, arith, false, has_value, length, refl, some, subst, true, ℕ, ◌+◌, ◌∙◌, ◌≡◌, ◌≤◌,
}
use dns_server_cpp.Header.Defs.{is_response}
use dns_server_cpp.Net.Received.{read_reply-sent}
use dns_server_cpp.Packet.Defs.{DnsPacket, get_edns_info, read_packet, set_counts, write_packet}
use dns_server_cpp.Packet.RoundTrip.{packet_bytes-IsBytes}
use dns_server_cpp.Packet.Wire.{
  IsPacket, packet_bytes, read_packet-Reads, sent_packet, write_packet_wire,
}
use dns_server_cpp.Resolver.Lookup.{lookup}
use dns_server_cpp.Resolver.Task.{Resolver, World, found}
use dns_server_cpp.Server.Defs.{
  answer_packet, capacity_for, caught, complete_response, send_response, serve, serve_read,
}

sent_packet-is_response :
    (p : DnsPacket) → is_response (sent_packet p).header ≡ is_response p.header
unfolding sent_packet set_counts is_response
sent_packet-is_response p = refl

sent_packet-question : (p : DnsPacket) → (sent_packet p).question ≡ p.question
unfolding sent_packet set_counts
sent_packet-question p = refl

-- A response that fits is written into a buffer that its receiver reads it from.
send_response-fits :
    (packet response : DnsPacket) (r : Resolver)
    → IsPacket (complete_response packet response)
    → length (packet_bytes (complete_response packet response))
      ≤ (with_capacity (capacity_for (get_edns_info packet))).max_capacity
    → (b b' : BytePacketBuffer) × (send_response packet response r ≡ found (some b) r)
      × (read_packet (at b 0) ≡ ok (sent_packet (complete_response packet response)) b')
unfolding send_response
send_response-fits packet response r v fits =
    let reply : DnsPacket = complete_response packet response in
    let fresh : BytePacketBuffer = with_capacity (capacity_for (get_edns_info packet)) in
    let xs : List ℕ = packet_bytes reply in
    let start_at : fresh.pos ≡ 0 = unfold with_capacity in refl in
    let room : fresh.pos + length xs ≤ fresh.max_capacity = omega (arith, fits, start_at) in
    let valid = with_capacity-IsValid (capacity_for (get_edns_info packet)) in
    let written : write_packet reply fresh ≡ ok tt (put_bytes xs fresh) =
      ap (λ (m : Action (Unit {0})). m fresh) (write_packet_wire reply v)
      ∙ write_all_fits xs fresh room valid.capacity_le in
    let held : Holds xs (at (put_bytes xs fresh) 0) =
      subst (λ i. Holds xs (at (put_bytes xs fresh) i)) start_at
        (put_bytes-Holds xs fresh (packet_bytes-IsBytes reply v) valid room) in
    (
      put_bytes xs fresh,
      at (put_bytes xs fresh) (0 + length xs),
      rw written refl,
      (read_packet-Reads reply v).run _ held,
    )

-- A query is answered with what its lookup returned.
answer_packet-found :
    (w : World) (depth : ℕ) (packet response : DnsPacket) (r r' : Resolver)
    → is_response packet.header ≡ false
    → has_value packet.question ≡ true
    → lookup w depth packet r ≡ found response r'
    → answer_packet w depth packet r ≡ send_response packet response r'
unfolding answer_packet
answer_packet-found w depth packet response r r' no_reply questioned looked =
    rw (no_reply, questioned, looked) refl

-- A datagram that holds the wire form of a query, whose fields are in range and which fits the array,
-- is answered with what the lookup of the query returned, made ready for the client: the bytes that are
-- sent are read by the client as this packet, where its fields are in range and it fits the client's
-- limit.
pub serve-answers :
    (w : World) (depth : ℕ) (query response : DnsPacket) (r r' : Resolver)
    → IsPacket query
    → length (packet_bytes query) ≤ max_buffer_size
    → is_response query.header ≡ false
    → has_value query.question ≡ true
    → lookup w depth (sent_packet query) r ≡ found response r'
    → IsPacket (complete_response (sent_packet query) response)
    → length (packet_bytes (complete_response (sent_packet query) response))
      ≤ (with_capacity (capacity_for (get_edns_info (sent_packet query)))).max_capacity
    → (b b' : BytePacketBuffer) × (serve w depth (packet_bytes query) r ≡ found (some b) r')
      × (read_packet (at b 0)
          ≡ ok (sent_packet (complete_response (sent_packet query) response)) b')
unfolding serve
serve-answers w depth query response r r' v fits no_reply questioned looked v' fits' =
    let packet : DnsPacket = sent_packet query in
    let (_, received_it) = read_reply-sent default_buffer_size query v fits in
    let (b, b', sent_it, back) = send_response-fits packet response r' v' fits' in
    let is_query = sent_packet-is_response query ∙ no_reply in
    let has_question = ap has_value (sent_packet-question query) ∙ questioned in
    (
      b,
      b',
      ap (λ o. caught (serve_read w depth o r)) received_it
          ∙ ap caught (
              answer_packet-found w depth packet response r r' is_query has_question looked
              ∙ sent_it),
      back,
    )
