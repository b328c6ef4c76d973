-- ===== src/Resolver/DeniedTests.antt =====
-- A lookup over one referral to a server that denies the name.
use dns_server_cpp.Address.Defs.{ipv4_eq, ipv4_of_uint32}
use dns_server_cpp.Buffer.Access.{
  load_range, position, read_u16, read_u32, read_u8, remaining, set_length, with_capacity,
  write_all, write_u16, write_u32, write_u8,
}
use dns_server_cpp.Buffer.Names.{
  follow_pointer, read_qname, read_round, read_rounds, split_label, take_label, write_label,
  write_labels, write_qname,
}
use dns_server_cpp.Buffer.State.{load, require_available, store}
use dns_server_cpp.Cache.Defs.{empty_cache, find, to_lower}
use dns_server_cpp.Common.{[], arith, refl, true, ℕ, ◌∷◌, ◌≡◌}
use dns_server_cpp.Header.Defs.{
  ResultCode, empty_header, get_result_code, is_response, read_header, result_code_from_num,
  set_recursion_desired, write_header,
}
use dns_server_cpp.Header.Flags.{view_flags}
use dns_server_cpp.Net.Exchange.{
  Reply, exchange, judge_reply, make_request, read_reply, received, received_buffer, received_from,
}
use dns_server_cpp.Net.Sockets.{af_inet, from_ip, socket_eq}
use dns_server_cpp.Packet.Defs.{
  DnsPacket, create_additional_opt_record, empty_packet, opt_additional, opt_ttl, question_count,
  read_packet, read_question_if, read_records, read_sections, set_counts, write_packet,
  write_question_if, write_records,
}
use dns_server_cpp.Question.Defs.{a_type, make_question, write_question}
use dns_server_cpp.Record.Defs.{
  DnsRecord, get_ip_address, get_ns_record, get_soa_record, soa_record,
}
use dns_server_cpp.Record.Read.{
  read_a_data, read_body, read_cname_data, read_data, read_record, read_soa_data,
}
use dns_server_cpp.Record.Write.{write_data, write_record}
use dns_server_cpp.Resolver.ChainTests.{root_server}
use dns_server_cpp.Resolver.Defs.{
  equals_ignore_case, extract_negative_ttl, finalize_response, negative_ttl_in, negative_ttl_of,
  query_name_server, query_replied,
}
use dns_server_cpp.Resolver.Denied.{lookup-denied, no_name}
use dns_server_cpp.Resolver.Final.{RepliesTo}
use dns_server_cpp.Resolver.Lookup.{add_candidate, add_glue, glue, lookup, name_query, ns_names}
use dns_server_cpp.Resolver.Referrals.{Leads, arrived, referred, usable}
use dns_server_cpp.Resolver.ResolvedTests.{
  address_query, asked_referral, cold_start, name_server, referral, referral-IsReferral,
  referral_world,
}
use dns_server_cpp.Resolver.Task.{Resolver, World, ask_roots, found}
use dns_server_cpp.Roots.Ask.{ask_server, change_at, is_tried, mark_answered, untried_candidates}
use dns_server_cpp.Roots.Defs.{
  fast_limit, get_candidates, get_least_srtt, is_candidate, keep_if, least_from, lower_srtt,
  numbered, select_category, update_srtt,
}

-- The name server's reply: no such name, with the SOA record of its zone.
abbrev denial_reply : Reply
denial_reply =
    received (af_inet 53 (record { octet0 = 192; octet1 = 0; octet2 = 2; octet3 = 2 })) 16
      (0 ∷ 7 ∷ 0x80 ∷ 3 ∷ 0 ∷ 0 ∷ 0 ∷ 0 ∷ 0 ∷ 1 ∷ 0 ∷ 0 ∷ 0 ∷ 0 ∷ 6 ∷ 0 ∷ 1 ∷ 0 ∷ 0 ∷ 0 ∷ 60 ∷ 0
        ∷ 26 ∷ 1 ∷ 110 ∷ 0 ∷ 1 ∷ 97 ∷ 0 ∷ 0 ∷ 0 ∷ 0 ∷ 1 ∷ 0 ∷ 0 ∷ 0 ∷ 2 ∷ 0 ∷ 0 ∷ 0 ∷ 3 ∷ 0 ∷ 0 ∷ 0
        ∷ 4 ∷ 0 ∷ 0 ∷ 0 ∷ 30 ∷ [])
      20

abbrev denying_world : World
denying_world = record referral_world { network = λ _ _ _. denial_reply }

abbrev zone_of_n : DnsRecord
zone_of_n = record {
  name = 46 ∷ [];
  type = 6;
  class = 1;
  ttl = 60;
  rdlength = 26;
  rdata = soa_record (record {
    primary_name_server = 110 ∷ [];
    responsible_authority_mailbox = 97 ∷ [];
    serial_number = 1;
    refresh_interval = 2;
    retry_interval = 3;
    expire_limit = 4;
    minimum_ttl = 30;
  });
}

abbrev denial : DnsPacket
denial = record empty_packet {
  header = record empty_header { id = 7; flags = 0x8003; nscount = 1 };
  authorities = zone_of_n ∷ [];
}

denied_address :
    (event : ℕ)
    → query_name_server true (denying_world.network event) address_query name_server
      ≡ query_replied denial
unfolding query_name_server read_a_data ipv4_of_uint32 select_category get_least_srtt least_from
    lower_srtt untried_candidates get_candidates fast_limit is_candidate numbered keep_if is_tried
    ask_server mark_answered update_srtt change_at name_query exchange judge_reply received_from
    socket_eq from_ip ipv4_eq read_reply received_buffer with_capacity set_length read_packet
    read_header read_u16 read_u32 read_u8 load require_available read_question_if read_sections
    read_records is_response make_request create_additional_opt_record set_recursion_desired
    opt_additional opt_ttl write_packet write_header write_u16 write_u32 write_u8 store
    write_question_if write_question write_records write_record write_qname write_labels write_label
    split_label write_data write_all set_counts question_count read_record read_body read_data
    read_cname_data read_qname read_rounds read_round take_label follow_pointer load_range position
    remaining read_soa_data
denied_address event = refl

to_denial : Leads denying_world address_query [] referral 1 (name_server ∷ []) denial
unfolding result_code_from_num is_response get_result_code glue ns_names add_glue add_candidate
    equals_ignore_case to_lower get_ns_record get_ip_address is_tried
to_denial = referred referral-IsReferral (usable name_server refl denied_address refl) arrived

lookup-denied_example :
    (r' r'' : Resolver) × (again : DnsPacket) × (lookup denying_world 1 address_query cold_start
      ≡ found (finalize_response denial address_query) r')
    × RepliesTo address_query (finalize_response denial address_query)
    × (lookup denying_world 1 address_query r' ≡ found again r'')
    × RepliesTo address_query again
    × ((view_flags again.header).code ≡ ResultCode.nxdomain)
    × (again.answers ≡ [])
    × (r'.servers ≡ root_server ∷ [])
    × (r''.servers ≡ root_server ∷ [])
unfolding name_query find ask_roots is_response get_result_code result_code_from_num
    extract_negative_ttl negative_ttl_in negative_ttl_of get_soa_record
lookup-denied_example =
    lookup-denied denying_world 0 address_query referral denial (make_question (97 ∷ []) a_type)
      empty_cache (root_server ∷ []) (root_server ∷ []) 0 refl refl (rw asked_referral) to_denial
      (omega arith) refl refl (no_name refl) (λ e. (omega arith, omega arith))
