-- ===== src/Resolver/Loops.antt =====
-- Aliases: the hop limit of the resolver, and an alias that names itself.
use dns_server_cpp.Address.Defs.{ipv4_eq, v4}
use dns_server_cpp.Buffer.Access.{
  load_range, position, read_u16, read_u32, read_u8, remaining, set_length, with_capacity,
  write_all, write_u16, write_u32, write_u8,
}
use dns_server_cpp.Buffer.Names.{
  follow_pointer, read_qname, read_round, read_rounds, split_label, take_label, write_label,
  write_labels, write_qname,
}
use dns_server_cpp.Buffer.State.{load, require_available, store}
use dns_server_cpp.Cache.Defs.{find, get}
use dns_server_cpp.Common.{
  Bool-cases, List, Option-cases, [], arith, false, inl, inr, is_empty, none, refl, suc, true, zero,
  ℕ, ◌%◌, ◌++◌, ◌+◌, ◌==◌, ◌^◌, ◌∷◌, ◌≡◌,
}
use dns_server_cpp.Header.Defs.{
  empty_header, is_response, read_header, set_recursion_desired, write_header,
}
use dns_server_cpp.Net.Exchange.{
  Reply, exchange, judge_reply, make_request, read_reply, received, received_buffer, received_from,
}
use dns_server_cpp.Net.Sockets.{af_inet, from_ip, socket_eq}
use dns_server_cpp.Packet.Defs.{
  DnsPacket, create_additional_opt_record, empty_packet, opt_additional, opt_ttl, question_count,
  read_packet, read_question_if, read_records, read_sections, set_counts, write_packet,
  write_question_if, write_records,
}
use dns_server_cpp.Question.Defs.{QuestionType, a_type, cname_type, write_question}
use dns_server_cpp.Record.Defs.{DnsRecord, cname_record, get_cname_record}
use dns_server_cpp.Record.Read.{read_body, read_cname_data, read_data, read_record}
use dns_server_cpp.Record.Write.{write_data, write_record}
use dns_server_cpp.Resolver.Lookup.{
  after_hop, answer_found, chase_alias, cname_target, follow_cname, follow_referrals, has_type,
  look_name, look_packet, look_question, lookup, name_query,
}
use dns_server_cpp.Resolver.Task.{
  Resolver, Task, World, ask_roots, cache_get, continue_with, found, too_deep,
}
use dns_server_cpp.Roots.Ask.{
  Surroundings, ask_root_server, ask_rounds, ask_server, change_at, is_tried, mark_answered,
  returned, untried_candidates,
}
use dns_server_cpp.Roots.Defs.{
  RootServer, fast_limit, get_candidates, get_least_srtt, is_candidate, keep_if, least_from,
  lower_srtt, numbered, select_category, success, update_srtt,
}

-- Where the answers have an alias with a target, the loop over aliases asks for the same name after
-- a hop's answers are appended as it did before.
cname_target-append :
    (answers more : List DnsRecord)
    → is_empty (cname_target answers) ≡ false
    → cname_target (answers ++ more) ≡ cname_target answers
unfolding cname_target
cname_target-append [] more h = cc h
cname_target-append (r ∷ rs) more h = elim (Bool-cases (r.type == cname_type)) [
  | inr f ↦ rw f (cname_target-append rs more (simp f at h))
  | inl t ↦ elim (Option-cases (get_cname_record r)) [
    | inl none_there ↦ rw (t, none_there) (cname_target-append rs more (simp (t, none_there) at h))
    | inr (target, there) ↦ rw (t, there)
  ]
]

has_type-part :
    (type : QuestionType) (xs ys : List DnsRecord)
    → has_type type (xs ++ ys) ≡ false
    → has_type type xs ≡ false
unfolding has_type
has_type-part type [] ys h = refl
has_type-part type (x ∷ xs) ys h = ground (arith, h, has_type-part type xs ys)

-- Where the answers so far have an alias with a target, and a hop of the loop over aliases brings
-- answers, but neither those so far nor the new ones have one of the type that is asked for, the next
-- hop asks for the same name again, and not for the target of an alias that the hop brought; what it
-- gets is appended once more.
pub follow_cname-repeats :
    (w : World) (look : DnsPacket → Task DnsPacket) (hops : ℕ) (type : QuestionType)
    (answers : List DnsRecord) (p : DnsPacket) (r r' : Resolver)
    → has_type type (answers ++ p.answers) ≡ false
    → is_empty (cname_target answers) ≡ false
    → is_empty p.answers ≡ false
    → look_name w look (cname_target answers) type r ≡ found p r'
    → follow_cname w look (suc (suc hops)) type answers r
      ≡ continue_with (look_name w look (cname_target answers) type r') (
          after_hop w look
            (answers ++ p.answers)
            (λ more. follow_cname w look hops type ((answers ++ p.answers) ++ more)))
unfolding follow_cname
follow_cname-repeats w look hops type answers p r r' none_there target filled asked =
    rw
      (
        has_type-part type answers p.answers none_there,
        target,
        asked,
        filled,
        none_there,
        cname_target-append answers p.answers target,
        target,
      )
      refl

-- A network in which every server answers every question with the alias of the name a to itself.
abbrev pub alias_server : RootServer
alias_server = record {
  address = v4 (record { octet0 = 192; octet1 = 0; octet2 = 2; octet3 = 1 });
  status = success;
  consecutive_failures = 0;
  srtt_ms = 40;
}

abbrev alias_reply : Reply
alias_reply =
    received (af_inet 53 (record { octet0 = 192; octet1 = 0; octet2 = 2; octet3 = 1 })) 16
      (0 ∷ 7 ∷ 0x80 ∷ 0 ∷ 0 ∷ 0 ∷ 0 ∷ 1 ∷ 0 ∷ 0 ∷ 0 ∷ 0 ∷ 1 ∷ 97 ∷ 0 ∷ 0 ∷ 5 ∷ 0 ∷ 1 ∷ 0 ∷ 0 ∷ 0
        ∷ 60 ∷ 0 ∷ 3 ∷ 1 ∷ 97 ∷ 0 ∷ [])
      40

abbrev alias_surroundings : Surroundings
alias_surroundings = record {
  roll = λ _. 50;
  draw = λ _ _. 0;
  opens = λ _. true;
  meanwhile = λ _ servers. servers;
  network = λ _ _ _. alias_reply;
}

abbrev pub alias_world : World
alias_world = record {
  clock = λ n. n;
  query_id = λ _. 7;
  roots = λ _. alias_surroundings;
  opens = λ _. true;
  network = λ _ _ _. alias_reply;
}

abbrev pub alias_query : DnsPacket
alias_query = name_query 7 (97 ∷ []) a_type none

abbrev alias_record : DnsRecord
alias_record = record {
  name = 97 ∷ [];
  type = cname_type;
  class = 1;
  ttl = 60;
  rdlength = 3;
  rdata = cname_record (97 ∷ []);
}

abbrev alias_response : DnsPacket
alias_response = record empty_packet {
  header = record empty_header { id = 7; flags = 0x8000; ancount = 1 };
  answers = alias_record ∷ [];
}

alias_asked :
    ask_root_server alias_surroundings alias_query (alias_server ∷ [])
    ≡ returned (alias_server.address ∷ []) (alias_server ∷ []) alias_response
unfolding ask_root_server ask_rounds select_category get_least_srtt least_from lower_srtt
    untried_candidates get_candidates fast_limit is_candidate numbered keep_if is_tried ask_server
    mark_answered update_srtt change_at name_query exchange judge_reply received_from socket_eq
    from_ip ipv4_eq read_reply received_buffer with_capacity set_length read_packet read_header
    read_u16 read_u32 read_u8 load require_available read_question_if read_sections read_records
    is_response make_request create_additional_opt_record set_recursion_desired opt_additional
    opt_ttl write_packet write_header write_u16 write_u32 write_u8 store write_question_if
    write_question write_records write_record write_qname write_labels write_label split_label
    write_data write_all set_counts question_count read_record read_body read_data read_cname_data
    read_qname read_rounds read_round take_label follow_pointer load_range position remaining
alias_asked = refl

-- The resolver with an empty cache, after a number of misses and of events.
abbrev pub alias_resolver : ℕ → ℕ → Resolver
alias_resolver misses events = record {
  cache = record { cache = []; cachehit_count = 0; cachemiss_count = misses };
  servers = alias_server ∷ [];
  events = events;
}

-- In a network where every server answers every question with an alias of the name a to itself, a
-- lookup of that name with an empty cache returns at no depth of recursive calls.
pub lookup-alias :
    (depth misses events : ℕ)
    → lookup alias_world depth alias_query (alias_resolver misses events) ≡ too_deep
unfolding lookup look_packet look_question cache_get get find ask_roots name_query follow_referrals
    is_response answer_found chase_alias follow_cname has_type cname_target get_cname_record
    look_name set_recursion_desired
lookup-alias zero misses events = refl
lookup-alias (suc depth) misses events =
    rw (alias_asked, lookup-alias depth ((misses + 1) % 2 ^ 64) (events + 1 + 1 + 1))
