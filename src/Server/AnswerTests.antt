-- ===== src/Server/AnswerTests.antt =====
-- A query that the cache answers, from its bytes to the bytes of the answer.
use dns_server_cpp.Buffer.Access.{with_capacity}
use dns_server_cpp.Buffer.NameWire.{qname_bytes, split_dots}
use dns_server_cpp.Buffer.State.{BytePacketBuffer, at, ok}
use dns_server_cpp.Cache.Defs.{count_hit, expired, get}
use dns_server_cpp.Common.{arith, inr, refl, some, ◌≡◌}
use dns_server_cpp.Header.Defs.{
  is_response, recursion_desired, set_authoritative, set_recursion_available, set_recursion_desired,
  set_response, set_result_code,
}
use dns_server_cpp.Packet.Defs.{DnsPacket, edns_in, get_edns_info, read_packet, set_counts}
use dns_server_cpp.Packet.Wire.{
  IsPacket, packet_bytes, question_if_bytes, records_bytes, sent_packet,
}
use dns_server_cpp.Record.Reading.{IsRecord}
use dns_server_cpp.Record.Wire.{record_bytes}
use dns_server_cpp.Resolver.Defs.{cached_header, cached_response, finalize_header}
use dns_server_cpp.Resolver.Lookup.{look_packet, look_question, lookup}
use dns_server_cpp.Resolver.Loops.{alias_world}
use dns_server_cpp.Resolver.Task.{Resolver, cache_get, found}
use dns_server_cpp.Resolver.Tests.{answer_entry, one_answer, some_query, warm_find, warm_resolver}
use dns_server_cpp.Server.Answers.{serve-answers}
use dns_server_cpp.Server.Defs.{complete_response, response_or_failure, serve, strip_opt}

packed_query-IsPacket : IsPacket some_query
unfolding split_dots
packed_query-IsPacket = record {
  id_lt = omega arith;
  flags_lt = omega arith;
  question_is = record {
    name_is = inr (omega arith, omega arith, omega arith);
    type_lt = omega arith;
    class_lt = omega arith;
  };
  answers_are = tt;
  authorities_are = tt;
  additionals_are = tt;
  answers_lt = omega arith;
  authorities_lt = omega arith;
  additionals_lt = omega arith;
}

-- The answer, and the server after it: the cache has counted a hit.
abbrev cached_answer : DnsPacket
cached_answer = cached_response (sent_packet some_query) answer_entry

abbrev hit_resolver : Resolver
hit_resolver = record warm_resolver { cache = count_hit warm_resolver.cache; events = 1 }

one_answer-IsRecord : IsRecord one_answer
unfolding split_dots
one_answer-IsRecord = record {
  name_is = inr (inr (omega arith, omega arith, omega arith));
  type_lt = omega arith;
  class_lt = omega arith;
  ttl_lt = omega arith;
  data_is = omega arith;
  describes = refl;
  size_lt = omega arith;
}

cached_answer-IsPacket : IsPacket (complete_response (sent_packet some_query) cached_answer)
unfolding complete_response response_or_failure is_response get_edns_info edns_in strip_opt
    finalize_header set_recursion_desired set_recursion_available set_authoritative set_response
    recursion_desired cached_response split_dots sent_packet set_counts cached_header
    set_result_code
cached_answer-IsPacket = record {
  id_lt = omega arith;
  flags_lt = omega arith;
  question_is = record {
    name_is = inr (omega arith, omega arith, omega arith);
    type_lt = omega arith;
    class_lt = omega arith;
  };
  answers_are = (one_answer-IsRecord, tt);
  authorities_are = tt;
  additionals_are = tt;
  answers_lt = omega arith;
  authorities_lt = omega arith;
  additionals_lt = omega arith;
}

looked_up :
    lookup alias_world 1 (sent_packet some_query) warm_resolver ≡ found cached_answer hit_resolver
unfolding lookup look_packet look_question cache_get get expired sent_packet set_counts
looked_up = rw warm_find refl

serve-answers_example :
    (b b' : BytePacketBuffer) × (serve alias_world 1 (packet_bytes some_query) warm_resolver
      ≡ found (some b) hit_resolver)
    × (read_packet (at b 0)
        ≡ ok (sent_packet (complete_response (sent_packet some_query) cached_answer)) b')
unfolding set_recursion_available set_recursion_desired recursion_desired set_response is_response
    packet_bytes question_if_bytes records_bytes record_bytes qname_bytes split_dots sent_packet
    set_counts complete_response response_or_failure get_edns_info edns_in strip_opt cached_response
    with_capacity cached_header set_result_code
serve-answers_example =
    serve-answers alias_world 1 some_query cached_answer warm_resolver hit_resolver
      packed_query-IsPacket (omega arith) refl refl looked_up cached_answer-IsPacket (omega arith)
