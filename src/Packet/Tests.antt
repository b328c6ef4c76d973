-- ===== src/Packet/Tests.antt =====
-- Runs of the theorems on one packet: a question for a.b with its answer.
use dns_server_cpp.Buffer.Access.{seek}
use dns_server_cpp.Buffer.NameWire.{qname_bytes, split_dots}
use dns_server_cpp.Buffer.Safe.{Any, IsSafe, IsValid}
use dns_server_cpp.Buffer.State.{BytePacketBuffer, length_error, max_buffer_size, ok, throws, ◌>>◌}
use dns_server_cpp.Buffer.Wire.{put_bytes}
use dns_server_cpp.Common.{[], arith, length, refl, some, true, ℕ, ◌∷◌, ◌≡◌, ◌≤◌}
use dns_server_cpp.Header.Defs.{empty_header}
use dns_server_cpp.Packet.Defs.{
  DnsPacket, create_additional_opt_record, edns_in, edns_of, empty_packet, get_edns_info,
  opt_additional, read_packet, set_counts, write_packet,
}
use dns_server_cpp.Packet.RoundTrip.{packet_overflow, packet_round_trip}
use dns_server_cpp.Packet.Safe.{write_packet-IsSafe}
use dns_server_cpp.Packet.Wire.{
  IsPacket, packet_bytes, question_if_bytes, records_bytes, sent_packet,
}
use dns_server_cpp.Question.Defs.{a_type, make_question}
use dns_server_cpp.Record.Defs.{get_opt_record}
use dns_server_cpp.Record.Tests.{
  sample_record, sample_record-IsRecord, short_name, short_name-IsName,
}
use dns_server_cpp.Record.Wire.{record_bytes}

abbrev sample_packet : DnsPacket
sample_packet = record empty_packet {
  header = record empty_header { id = 7; flags = 0x8180 };
  question = some (make_question short_name a_type);
  answers = sample_record ∷ [];
}

sample_packet-IsPacket : IsPacket sample_packet
sample_packet-IsPacket = record {
  id_lt = omega arith;
  flags_lt = omega arith;
  question_is = record {
    name_is = short_name-IsName;
    type_lt = omega arith;
    class_lt = omega arith;
  };
  answers_are = (sample_record-IsRecord, tt);
  authorities_are = tt;
  additionals_are = tt;
  answers_lt = omega arith;
  authorities_lt = omega arith;
  additionals_lt = omega arith;
}

length-sample : length (packet_bytes sample_packet) ≡ 40
unfolding packet_bytes set_counts question_if_bytes records_bytes record_bytes qname_bytes
    split_dots
length-sample = refl

abbrev buffer_of : ℕ → BytePacketBuffer
buffer_of c = record { buff = λ _. 0; pos = 0; len = 0; max_capacity = c }

buffer_of-IsValid : (c : ℕ) → c ≤ max_buffer_size → IsValid (buffer_of c)
buffer_of-IsValid c h = ground arith

packet_round_trip_example :
    (write_packet sample_packet >> (seek 0 >> read_packet)) (buffer_of 512)
    ≡ ok (sent_packet sample_packet) (put_bytes (packet_bytes sample_packet) (buffer_of 512))
packet_round_trip_example =
    packet_round_trip sample_packet (buffer_of 512) sample_packet-IsPacket
      (buffer_of-IsValid 512 (omega arith)) (omega (arith, length-sample))

packet_overflow_example :
    (b' : BytePacketBuffer) × (write_packet sample_packet (buffer_of 39) ≡ throws length_error b')
packet_overflow_example =
    packet_overflow sample_packet (buffer_of 39) sample_packet-IsPacket
      (buffer_of-IsValid 39 (omega arith)) (omega arith) (omega (arith, length-sample))

write_packet-IsSafe_example : IsSafe Any (write_packet sample_packet)
write_packet-IsSafe_example = write_packet-IsSafe sample_packet

abbrev edns_packet : DnsPacket
edns_packet = create_additional_opt_record 4096 0 0 true empty_packet

edns_packet_info :
    get_edns_info edns_packet
    ≡ some (record { edns_present = true; max_payload_size = 1232; dnssec_ok = true; version = 0 })
unfolding get_edns_info create_additional_opt_record edns_in edns_of opt_additional get_opt_record
edns_packet_info = refl
