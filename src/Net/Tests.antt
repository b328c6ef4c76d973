-- ===== src/Net/Tests.antt =====
-- Runs of the theorems on one exchange.
use dns_server_cpp.Address.Defs.{IpAddress, ipv4_eq, v4}
use dns_server_cpp.Buffer.Access.{
  read_u16, read_u8, set_length, with_capacity, write_all, write_u16, write_u32, write_u8,
}
use dns_server_cpp.Buffer.Names.{write_qname}
use dns_server_cpp.Buffer.State.{BytePacketBuffer, load, require_available, store}
use dns_server_cpp.Common.{[], refl, true, ◌↔◌, ◌∷◌, ◌≡◌}
use dns_server_cpp.Header.Defs.{
  empty_header, is_response, read_header, set_recursion_desired, write_header,
}
use dns_server_cpp.Net.Exchange.{
  Reply, answered, exchange, judge_reply, make_request, read_reply, received, received_buffer,
  received_from,
}
use dns_server_cpp.Net.Replies.{Answers, CameFrom, exchange-answered}
use dns_server_cpp.Net.Sockets.{af_inet, from_ip, from_ip_eq_iff, socket_eq}
use dns_server_cpp.Packet.Defs.{
  DnsPacket, create_additional_opt_record, empty_packet, opt_additional, opt_ttl, question_count,
  read_packet, read_question_if, read_records, read_sections, set_counts, write_packet,
  write_question_if, write_records,
}
use dns_server_cpp.Record.Write.{write_data, write_record}

abbrev server_address : IpAddress
server_address = v4 (record { octet0 = 192; octet1 = 0; octet2 = 2; octet3 = 1 })

abbrev plain_query : DnsPacket
plain_query = record empty_packet { header = record empty_header { id = 7 } }

-- A response without sections, with the ID 7.
abbrev plain_response : BytePacketBuffer → Reply
plain_response b =
    received (af_inet 53 (record { octet0 = 192; octet1 = 0; octet2 = 2; octet3 = 1 })) 16
      (0 ∷ 7 ∷ 0x80 ∷ 0 ∷ 0 ∷ 0 ∷ 0 ∷ 0 ∷ 0 ∷ 0 ∷ 0 ∷ 0 ∷ []) 12

abbrev plain_packet : DnsPacket
plain_packet = record empty_packet { header = record empty_header { id = 7; flags = 0x8000 } }

plain_exchange :
    exchange (make_request plain_query) (from_ip server_address 53) plain_response
    ≡ answered plain_packet 12
unfolding exchange judge_reply received_from socket_eq from_ip ipv4_eq read_reply received_buffer
    with_capacity set_length read_packet read_header read_u16 read_u8 load require_available
    read_question_if read_sections read_records is_response make_request
    create_additional_opt_record set_recursion_desired opt_additional opt_ttl write_packet
    write_header write_u16 write_u32 write_u8 store write_question_if write_records write_record
    write_qname write_data write_all set_counts question_count
plain_exchange = refl

exchange-answered_example :
    Answers (make_request plain_query) plain_packet
    × ((b : BytePacketBuffer) × CameFrom
          (from_ip server_address 53)
          (plain_response b)
          plain_packet)
exchange-answered_example =
    exchange-answered (make_request plain_query) plain_packet (from_ip server_address 53)
      plain_response 12 plain_exchange

from_ip_eq_iff_example :
    (socket_eq
        (af_inet 53 (record { octet0 = 192; octet1 = 0; octet2 = 2; octet3 = 1 }))
        (from_ip server_address 53)
      ≡ true)
    ↔ (af_inet 53 (record { octet0 = 192; octet1 = 0; octet2 = 2; octet3 = 1 })
        ≡ from_ip server_address 53)
from_ip_eq_iff_example = from_ip_eq_iff _ server_address 53
