-- ===== src/Server/Tests.antt =====
-- Runs of the theorems on the server.
use dns_server_cpp.Buffer.Access.{with_capacity}
use dns_server_cpp.Buffer.NameWire.{qname_bytes, split_dots}
use dns_server_cpp.Common.{
  List, [], ap, arith, has_value, inr, length, length-append, none, refl, some, suc, true, zero, ℕ,
  ◌++◌, ◌<◌, ◌^◌, ◌∷◌, ◌≡◌, ◌≤◌,
}
use dns_server_cpp.Header.Defs.{
  empty_header, is_response, recursion_desired, set_authoritative, set_recursion_available,
  set_recursion_desired, set_response,
}
use dns_server_cpp.Packet.Defs.{DnsPacket, edns_in, empty_packet, get_edns_info, set_counts}
use dns_server_cpp.Packet.Wire.{
  IsPacket, packet_bytes, question_if_bytes, records_bytes, sent_packet,
}
use dns_server_cpp.Question.Defs.{a_type, make_question}
use dns_server_cpp.Record.Defs.{DnsRecord, unknown_record}
use dns_server_cpp.Record.Reading.{IsRecord}
use dns_server_cpp.Record.Tests.{short_name, short_name-IsName}
use dns_server_cpp.Record.Wire.{IsBytes, record_bytes}
use dns_server_cpp.Resolver.Defs.{finalize_header}
use dns_server_cpp.Resolver.Final.{RepliesTo}
use dns_server_cpp.Resolver.Loops.{alias_resolver}
use dns_server_cpp.Resolver.Task.{found}
use dns_server_cpp.Server.Defs.{complete_response, response_or_failure, send_response, strip_opt}
use dns_server_cpp.Server.Response.{
  client_edns, complete_response-RepliesTo, complete_response-edns,
}
use dns_server_cpp.Server.Serving.{send_response-dropped}

abbrev small_query : DnsPacket
small_query = record empty_packet {
  header = record empty_header { id = 7; flags = 0x0100 };
  question = some (make_question short_name a_type);
}

complete_response-RepliesTo_example :
    RepliesTo small_query (complete_response small_query empty_packet)
    × (has_value (complete_response small_query empty_packet).question ≡ true)
complete_response-RepliesTo_example =
    complete_response-RepliesTo small_query empty_packet (make_question short_name a_type) refl

complete_response-edns_example :
    get_edns_info (sent_packet (complete_response small_query empty_packet))
    ≡ client_edns (get_edns_info small_query)
complete_response-edns_example = complete_response-edns small_query empty_packet tt

abbrev zeros : ℕ → List ℕ
zeros zero = []
zeros (suc n) = 0 ∷ zeros n

zeros-IsBytes : (n : ℕ) → IsBytes (zeros n)
zeros-IsBytes zero = tt
zeros-IsBytes (suc n) = (omega arith, zeros-IsBytes n)

length-zeros : (n : ℕ) → length (zeros n) ≡ n
length-zeros zero = refl
length-zeros (suc n) = ap suc (length-zeros n)

-- A record of 600 bytes of a type that the program does not know.
abbrev large_record : ℕ → DnsRecord
large_record n = record {
  name = short_name;
  type = 16;
  class = 1;
  ttl = 300;
  rdlength = 0;
  rdata = unknown_record (zeros n);
}

large_record-IsRecord : (n : ℕ) → n < 2 ^ 16 → IsRecord (large_record n)
large_record-IsRecord n h = record {
  name_is = inr short_name-IsName;
  type_lt = omega arith;
  class_lt = omega arith;
  ttl_lt = omega arith;
  data_is = (omega (arith, length-zeros n), zeros-IsBytes n);
  describes =
      (omega arith, omega arith, omega arith, omega arith, omega arith, omega arith, omega arith);
  size_lt = omega (arith, length-zeros n);
}

abbrev large_response : ℕ → DnsPacket
large_response n = record empty_packet {
  header = record empty_header { id = 7; flags = 0x8000 };
  question = some (make_question short_name a_type);
  answers = large_record n ∷ [];
}

large_response-IsPacket :
    (n : ℕ) → n < 2 ^ 16 → IsPacket (complete_response small_query (large_response n))
unfolding complete_response response_or_failure is_response get_edns_info edns_in strip_opt
    finalize_header set_recursion_desired set_recursion_available set_authoritative set_response
    recursion_desired
large_response-IsPacket n h = record {
  id_lt = omega arith;
  flags_lt = omega arith;
  question_is = record {
    name_is = short_name-IsName;
    type_lt = omega arith;
    class_lt = omega arith;
  };
  answers_are = (large_record-IsRecord n h, tt);
  authorities_are = tt;
  additionals_are = tt;
  answers_lt = omega arith;
  authorities_lt = omega arith;
  additionals_lt = omega arith;
}

length-large_response :
    (n : ℕ) → n ≤ length (packet_bytes (complete_response small_query (large_response n)))
unfolding packet_bytes complete_response response_or_failure is_response get_edns_info edns_in
    strip_opt question_if_bytes records_bytes record_bytes qname_bytes split_dots set_counts
length-large_response n =
    omega (arith, length-zeros n, length-append (zeros n) [], length-append (zeros n ++ []) [])

send_response-dropped_example :
    send_response small_query (large_response 600) (alias_resolver 0 0)
    ≡ found none (alias_resolver 0 0)
unfolding with_capacity get_edns_info edns_in
send_response-dropped_example =
    send_response-dropped small_query (large_response 600) (alias_resolver 0 0)
      (large_response-IsPacket 600 (omega arith)) (omega (arith, length-large_response 600))
