-- ===== src/Server/Defs.antt =====
-- What DnsServer does with one datagram (src/DnsServer.cxx): read it, look the query up, complete the
-- response and write it for the client.
use dns_server_cpp.Buffer.Access.{with_capacity}
use dns_server_cpp.Buffer.State.{
  BytePacketBuffer, Outcome, default_buffer_size, ok, out_of_bounds, out_of_fuel, throws,
}
use dns_server_cpp.Common.{
  List, Option, [], false, has_value, if◌then◌else◌, none, not, some, true, ℕ, ◌==◌, ◌||◌, ◌∷◌,
}
use dns_server_cpp.Header.Defs.{
  ResultCode, empty_header, is_response, recursion_desired, set_authoritative,
  set_recursion_available, set_recursion_desired, set_response, set_result_code,
}
use dns_server_cpp.Net.Exchange.{read_reply}
use dns_server_cpp.Packet.Defs.{
  DnsPacket, EdnsInfo, create_additional_opt_record, empty_packet, get_edns_info, write_packet,
}
use dns_server_cpp.Question.Defs.{opt_type}
use dns_server_cpp.Record.Defs.{DnsRecord}
use dns_server_cpp.Resolver.Defs.{finalize_header}
use dns_server_cpp.Resolver.Lookup.{lookup}
use dns_server_cpp.Resolver.Task.{Looked, Task, World, fault, found, give, thrown, too_deep, ◌>>=◌}

unfoldable pub make_server_failure : DnsPacket → DnsPacket
make_server_failure request = record empty_packet {
  header = set_result_code ResultCode.servfail (
      set_recursion_available true (
        set_recursion_desired (recursion_desired request.header) (
          set_authoritative false
            (set_response true (record empty_header { id = request.header.id })))));
  question = request.question;
}

-- A response that is none, or that has no question, is replaced by a failure.
unfoldable pub response_or_failure : DnsPacket → DnsPacket → DnsPacket
response_or_failure packet response =
    if not (is_response response.header) || not (has_value response.question)
    then make_server_failure packet
    else response

-- `std::remove_if` of the records of type OPT.
unfoldable pub strip_opt : List DnsRecord → List DnsRecord
strip_opt [] = []
strip_opt (r ∷ rs) = let rest = strip_opt rs in if r.type == opt_type then rest else (r ∷ rest)

-- The OPT record for a client that sent one.
abbrev pub add_client_opt : Option EdnsInfo → DnsPacket → DnsPacket
add_client_opt none p = p
add_client_opt (some e) p = create_additional_opt_record e.max_payload_size 0 0 e.dnssec_ok p

-- The response as it is written: the client's ID and flags, and no OPT record but its own.
unfoldable pub complete_response : DnsPacket → DnsPacket → DnsPacket
complete_response packet response =
    let p = response_or_failure packet response in
    add_client_opt (get_edns_info packet) (record p {
      header = finalize_header packet.header p.header;
      additionals = strip_opt p.additionals;
    })

abbrev pub capacity_for : Option EdnsInfo → ℕ
capacity_for none = default_buffer_size
capacity_for (some e) = e.max_payload_size

-- What is handed to `sendto`; a response that cannot be written is dropped.
abbrev pub sent_buffer : Outcome (Unit {0}) → Task (Option BytePacketBuffer)
sent_buffer (ok u b) r = found (some b) r
sent_buffer (throws e b) r = found none r
sent_buffer out_of_bounds r = fault
sent_buffer out_of_fuel r = fault

unfoldable pub send_response : DnsPacket → DnsPacket → Task (Option BytePacketBuffer)
send_response packet response = sent_buffer (
    write_packet (complete_response packet response)
      (with_capacity (capacity_for (get_edns_info packet))))

abbrev pub handle_query : World → ℕ → DnsPacket → Task DnsPacket
handle_query w depth request = lookup w depth request

-- A query is looked up; a response, or a packet without a question, is ignored.
unfoldable pub answer_packet : World → ℕ → DnsPacket → Task (Option BytePacketBuffer)
answer_packet w depth packet =
    if is_response packet.header || not (has_value packet.question)
    then give none
    else (handle_query w depth packet >>= send_response packet)

abbrev pub serve_read : World → ℕ → Outcome DnsPacket → Task (Option BytePacketBuffer)
serve_read w depth (ok packet b) = answer_packet w depth packet
serve_read w depth (throws e b) = give none
serve_read w depth out_of_bounds = λ r. fault
serve_read w depth out_of_fuel = λ r. fault

-- The `catch` behind the handling of a datagram: nothing is sent.
abbrev pub caught : Looked (Option BytePacketBuffer) → Looked (Option BytePacketBuffer)
caught (found o r) = found o r
caught (thrown r) = found none r
caught fault = fault
caught too_deep = too_deep

-- One datagram, to the depth of recursive lookups; what is sent, if anything is.
unfoldable pub serve : World → ℕ → List ℕ → Task (Option BytePacketBuffer)
serve w depth bytes r = caught (serve_read w depth (read_reply default_buffer_size bytes) r)
