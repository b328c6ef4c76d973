-- ===== src/Resolver/ResolvedTests.antt =====
-- A lookup over one referral: a root server names a server for the name a, which has its address.
use dns_server_cpp.Address.Defs.{IpAddress, ipv4_eq, ipv4_of_uint32, v4}
use dns_server_cpp.Buffer.Access.{
  load_range, position, read_u16, read_u32, read_u8, remaining, set_length, with_capacity,
  write_all, write_u16, write_u32, write_u8,
}
use dns_server_cpp.Buffer.Names.{
  follow_pointer, read_qname, read_round, read_rounds, split_label, take_label, write_label,
  write_labels, write_qname,
}
use dns_server_cpp.Buffer.State.{load, require_available, store}
use dns_server_cpp.Cache.Defs.{empty_cache, find, make_key, min_ttl_of, to_lower}
use dns_server_cpp.Cache.Lifetimes.{records_entry}
use dns_server_cpp.Common.{[], arith, none, refl, some, true, ℕ, ◌+◌, ◌∷◌, ◌≡◌}
use dns_server_cpp.Header.Defs.{
  empty_header, get_result_code, is_response, read_header, result_code_from_num,
  set_recursion_desired, write_header,
}
use dns_server_cpp.Net.Exchange.{
  Reply, exchange, judge_reply, make_request, read_reply, received, received_buffer, received_from,
}
use dns_server_cpp.Net.Sockets.{af_inet, from_ip, socket_eq}
use dns_server_cpp.Packet.Defs.{
  DnsPacket, create_additional_opt_record, empty_packet, opt_additional, opt_ttl, question_count,
  read_packet, read_question_if, read_records, read_sections, set_counts, write_packet,
  write_question_if, write_records,
}
use dns_server_cpp.Question.Defs.{a_type, make_question, ns_type, write_question}
use dns_server_cpp.Record.Defs.{DnsRecord, a_record, get_ip_address, get_ns_record, ns_record}
use dns_server_cpp.Record.Read.{
  read_a_data, read_body, read_cname_data, read_data, read_ns_data, read_record,
}
use dns_server_cpp.Record.Write.{write_data, write_record}
use dns_server_cpp.Resolver.ChainTests.{root_server}
use dns_server_cpp.Resolver.Defs.{
  equals_ignore_case, finalize_response, query_name_server, query_replied,
}
use dns_server_cpp.Resolver.Final.{RepliesTo}
use dns_server_cpp.Resolver.Lookup.{
  add_candidate, add_glue, glue, has_type, lookup, name_query, ns_names,
}
use dns_server_cpp.Resolver.Referrals.{IsReferral, Leads, arrived, referred, usable}
use dns_server_cpp.Resolver.Resolved.{lookup-resolved, lookup-twice}
use dns_server_cpp.Resolver.Task.{Resolver, World, ask_roots, found}
use dns_server_cpp.Roots.Ask.{
  Surroundings, ask_root_server, ask_rounds, ask_server, change_at, is_tried, mark_answered,
  returned, untried_candidates,
}
use dns_server_cpp.Roots.Defs.{
  fast_limit, get_candidates, get_least_srtt, is_candidate, keep_if, least_from, lower_srtt,
  numbered, select_category, update_srtt,
}

abbrev pub name_server : IpAddress
name_server = v4 (record { octet0 = 192; octet1 = 0; octet2 = 2; octet3 = 2 })

-- The root server's reply: an NS record with the name n, and the address of n.
abbrev referral_reply : Reply
referral_reply =
    received (af_inet 53 (record { octet0 = 192; octet1 = 0; octet2 = 2; octet3 = 1 })) 16
      (0 ∷ 7 ∷ 0x80 ∷ 0 ∷ 0 ∷ 0 ∷ 0 ∷ 0 ∷ 0 ∷ 1 ∷ 0 ∷ 1 ∷ 1 ∷ 97 ∷ 0 ∷ 0 ∷ 2 ∷ 0 ∷ 1 ∷ 0 ∷ 0 ∷ 0
        ∷ 60 ∷ 0 ∷ 3 ∷ 1 ∷ 110 ∷ 0 ∷ 1 ∷ 110 ∷ 0 ∷ 0 ∷ 1 ∷ 0 ∷ 1 ∷ 0 ∷ 0 ∷ 0 ∷ 60 ∷ 0 ∷ 4 ∷ 192 ∷ 0
        ∷ 2 ∷ 2 ∷ [])
      40

-- The name server's reply.
abbrev address_reply : Reply
address_reply =
    received (af_inet 53 (record { octet0 = 192; octet1 = 0; octet2 = 2; octet3 = 2 })) 16
      (0 ∷ 7 ∷ 0x80 ∷ 0 ∷ 0 ∷ 0 ∷ 0 ∷ 1 ∷ 0 ∷ 0 ∷ 0 ∷ 0 ∷ 1 ∷ 97 ∷ 0 ∷ 0 ∷ 1 ∷ 0 ∷ 1 ∷ 0 ∷ 0 ∷ 0
        ∷ 60 ∷ 0 ∷ 4 ∷ 1 ∷ 2 ∷ 3 ∷ 4 ∷ [])
      20

abbrev referring : Surroundings
referring = record {
  roll = λ _. 50;
  draw = λ _ _. 0;
  opens = λ _. true;
  meanwhile = λ _ servers. servers;
  network = λ _ _ _. referral_reply;
}

abbrev pub referral_world : World
referral_world = record {
  clock = λ n. n;
  query_id = λ _. 7;
  roots = λ _. referring;
  opens = λ _. true;
  network = λ _ _ _. address_reply;
}

abbrev pub address_query : DnsPacket
address_query = name_query 7 (97 ∷ []) a_type none

abbrev ns_of_a : DnsRecord
ns_of_a = record {
  name = 97 ∷ [];
  type = ns_type;
  class = 1;
  ttl = 60;
  rdlength = 3;
  rdata = ns_record (110 ∷ []);
}

abbrev address_of_n : DnsRecord
address_of_n = record {
  name = 110 ∷ [];
  type = a_type;
  class = 1;
  ttl = 60;
  rdlength = 4;
  rdata = a_record (record { octet0 = 192; octet1 = 0; octet2 = 2; octet3 = 2 });
}

abbrev address_of_a : DnsRecord
address_of_a = record {
  name = 97 ∷ [];
  type = a_type;
  class = 1;
  ttl = 60;
  rdlength = 4;
  rdata = a_record (record { octet0 = 1; octet1 = 2; octet2 = 3; octet3 = 4 });
}

abbrev pub referral : DnsPacket
referral = record empty_packet {
  header = record empty_header { id = 7; flags = 0x8000; nscount = 1; arcount = 1 };
  authorities = ns_of_a ∷ [];
  additionals = address_of_n ∷ [];
}

abbrev address_response : DnsPacket
address_response = record empty_packet {
  header = record empty_header { id = 7; flags = 0x8000; ancount = 1 };
  answers = address_of_a ∷ [];
}

pub asked_referral :
    ask_root_server referring address_query (root_server ∷ [])
    ≡ returned (root_server.address ∷ []) (root_server ∷ []) referral
unfolding read_a_data ipv4_of_uint32 ask_root_server ask_rounds select_category get_least_srtt
    least_from lower_srtt untried_candidates get_candidates fast_limit is_candidate numbered keep_if
    is_tried ask_server mark_answered update_srtt change_at name_query exchange judge_reply
    received_from socket_eq from_ip ipv4_eq read_reply received_buffer with_capacity set_length
    read_packet read_header read_u16 read_u32 read_u8 load require_available read_question_if
    read_sections read_records is_response make_request create_additional_opt_record
    set_recursion_desired opt_additional opt_ttl write_packet write_header write_u16 write_u32
    write_u8 store write_question_if write_question write_records write_record write_qname
    write_labels write_label split_label write_data write_all set_counts question_count read_record
    read_body read_data read_cname_data read_qname read_rounds read_round take_label follow_pointer
    load_range position remaining read_ns_data
asked_referral = refl

asked_address :
    (event : ℕ)
    → query_name_server true (referral_world.network event) address_query name_server
      ≡ query_replied address_response
unfolding query_name_server read_a_data ipv4_of_uint32 select_category get_least_srtt least_from
    lower_srtt untried_candidates get_candidates fast_limit is_candidate numbered keep_if is_tried
    ask_server mark_answered update_srtt change_at name_query exchange judge_reply received_from
    socket_eq from_ip ipv4_eq read_reply received_buffer with_capacity set_length read_packet
    read_header read_u16 read_u32 read_u8 load require_available read_question_if read_sections
    read_records is_response make_request create_additional_opt_record set_recursion_desired
    opt_additional opt_ttl write_packet write_header write_u16 write_u32 write_u8 store
    write_question_if write_question write_records write_record write_qname write_labels write_label
    split_label write_data write_all set_counts question_count read_record read_body read_data
    read_cname_data read_qname read_rounds read_round take_label follow_pointer load_range position
    remaining
asked_address event = refl

pub referral-IsReferral : IsReferral referral
unfolding result_code_from_num is_response get_result_code glue ns_names add_glue add_candidate
    equals_ignore_case to_lower get_ns_record get_ip_address is_tried
referral-IsReferral = record {
  responds = refl;
  no_answers = refl;
  no_error = refl;
  refers = refl;
  glued = refl;
}

one_referral : Leads referral_world address_query [] referral 1 (name_server ∷ []) address_response
unfolding result_code_from_num is_response get_result_code glue ns_names add_glue add_candidate
    equals_ignore_case to_lower get_ns_record get_ip_address is_tried
one_referral = referred referral-IsReferral (usable name_server refl asked_address refl) arrived

abbrev pub cold_start : Resolver
cold_start = record { cache = empty_cache; servers = root_server ∷ []; events = 0 }

lookup-twice_example :
    (r' r'' : Resolver) × (again : DnsPacket) × (lookup referral_world 1 address_query cold_start
      ≡ found (finalize_response address_response address_query) r')
    × (lookup referral_world 1 address_query r' ≡ found again r'')
    × RepliesTo address_query again
    × (again.answers ≡ address_of_a ∷ [])
    × (r''.servers ≡ r'.servers)
    × (r''.cache.cache ≡ r'.cache.cache)
unfolding name_query find ask_roots is_response has_type min_ttl_of
lookup-twice_example =
    lookup-twice referral_world 0 address_query referral address_response
      (make_question (97 ∷ []) a_type) empty_cache (root_server ∷ []) (root_server ∷ []) 0 refl refl
      refl (rw asked_referral) one_referral (omega arith) refl refl (λ e. omega arith)
      (λ e. omega arith)

lookup-resolved_example :
    (r' : Resolver) × (made : ℕ) × (lookup referral_world 1 address_query cold_start
      ≡ found (finalize_response address_response address_query) r')
    × RepliesTo address_query (finalize_response address_response address_query)
    × ((finalize_response address_response address_query).answers ≡ address_of_a ∷ [])
    × (find (make_key (97 ∷ []) a_type) r'.cache.cache
        ≡ some (records_entry (address_of_a ∷ []) 60 (referral_world.clock made)))
    × (r'.servers ≡ root_server ∷ [])
    × (r'.events ≡ made + 2)
unfolding name_query find ask_roots is_response has_type min_ttl_of
lookup-resolved_example =
    lookup-resolved referral_world 0 address_query referral address_response
      (make_question (97 ∷ []) a_type) empty_cache (root_server ∷ []) (root_server ∷ []) 0 refl refl
      refl (rw asked_referral) one_referral (omega arith) refl refl (λ e. omega arith)
