-- ===== src/Resolver/Tests.antt =====
-- Runs of the theorems on the resolver, in the network of Loops and on small packets.
use dns_server_cpp.Address.Defs.{bytes_eq}
use dns_server_cpp.Cache.Defs.{
  CacheResult, DnsCacheEntry, empty_cache, find, key_eq, make_entry, make_key, normalize, positive,
  second, to_lower,
}
use dns_server_cpp.Common.{All, [], arith, refl, some, true, ◌++◌, ◌+◌, ◌↔◌, ◌∷◌, ◌≡◌, ◌≤◌}
use dns_server_cpp.Header.Defs.{code_number, empty_header}
use dns_server_cpp.Header.Flags.{view_flags}
use dns_server_cpp.Packet.Defs.{DnsPacket, empty_packet}
use dns_server_cpp.Question.Defs.{a_type, cname_type, make_question}
use dns_server_cpp.Record.Defs.{DnsRecord, a_record, cname_record, get_cname_record}
use dns_server_cpp.Resolver.Answered.{IsReply, IsSound}
use dns_server_cpp.Resolver.Cached.{lookup-cached}
use dns_server_cpp.Resolver.Candidates.{IsBrought, glue-AreBrought}
use dns_server_cpp.Resolver.Defs.{
  equals_ignore_case, extract_negative_ttl, finalize_response, negative_ttl_in,
}
use dns_server_cpp.Resolver.Final.{RepliesTo}
use dns_server_cpp.Resolver.Lookup.{
  after_hop, answer_negative, cname_target, follow_cname, glue, has_type, look_name, lookup,
}
use dns_server_cpp.Resolver.Loops.{
  alias_query, alias_resolver, alias_world, follow_cname-repeats, lookup-alias,
}
use dns_server_cpp.Resolver.Names.{make_key-equals_ignore_case}
use dns_server_cpp.Resolver.Negative.{answer_negative-remembers, negative_entry}
use dns_server_cpp.Resolver.Replies.{lookup-IsSound}
use dns_server_cpp.Resolver.Task.{Resolver, continue_with, found, give, too_deep}

make_key-equals_ignore_case_example :
    (equals_ignore_case (65 ∷ []) (97 ∷ []) ≡ true)
    ↔ (make_key (65 ∷ []) a_type ≡ make_key (97 ∷ []) a_type)
make_key-equals_ignore_case_example = make_key-equals_ignore_case (65 ∷ []) (97 ∷ []) a_type

-- A response with authority to a query that wants recursion.
abbrev some_response : DnsPacket
some_response = record empty_packet { header = record empty_header { id = 9; flags = 0x8400 } }

abbrev pub some_query : DnsPacket
some_query = record empty_packet {
  header = record empty_header { id = 7; flags = 0x0100 };
  question = some (make_question (97 ∷ []) a_type);
}

lookup-IsSound_example : IsSound (IsReply some_query) (lookup alias_world 3 some_query)
lookup-IsSound_example = lookup-IsSound alias_world 3 some_query (λ n q attempt servers. refl)

lookup-alias_example : lookup alias_world 5 alias_query (alias_resolver 0 0) ≡ too_deep
lookup-alias_example = lookup-alias 5 0 0

-- The answer that the cache has.
abbrev pub one_answer : DnsRecord
one_answer = record {
  name = 97 ∷ [];
  type = a_type;
  class = 1;
  ttl = 60;
  rdlength = 4;
  rdata = a_record (record { octet0 = 192; octet1 = 0; octet2 = 2; octet3 = 9 });
}

abbrev pub answer_entry : DnsCacheEntry
answer_entry = make_entry (one_answer ∷ []) positive 60 0

abbrev pub warm_resolver : Resolver
warm_resolver = record {
  cache = record {
    cache = (record { domain = 97 ∷ []; type = a_type }, answer_entry) ∷ [];
    cachehit_count = 0;
    cachemiss_count = 0;
  };
  servers = [];
  events = 0;
}

pub warm_find : find (make_key (97 ∷ []) a_type) warm_resolver.cache.cache ≡ some answer_entry
unfolding find make_key normalize to_lower key_eq bytes_eq
warm_find = refl

lookup-cached_example :
    (p : DnsPacket) × (r' : Resolver) × (lookup alias_world 1 some_query warm_resolver ≡ found p r')
    × RepliesTo some_query p
    × (p.question ≡ some_query.question)
    × (p.answers ≡ one_answer ∷ [])
    × (code_number (view_flags p.header).code ≡ 0)
    × (r'.cache.cache ≡ warm_resolver.cache.cache)
    × (r'.servers ≡ warm_resolver.servers)
lookup-cached_example =
    lookup-cached alias_world 0 some_query (make_question (97 ∷ []) a_type) answer_entry
      warm_resolver refl warm_find (omega arith)

abbrev alias_answer : DnsRecord
alias_answer = record one_answer { type = cname_type; rdata = cname_record (98 ∷ []) }

-- Every question for the name b is answered by an alias of c.
abbrev alias_of_c : DnsPacket
alias_of_c = record empty_packet {
  answers = record one_answer { type = cname_type; rdata = cname_record (99 ∷ []) } ∷ [];
}

follow_cname-repeats_example :
    follow_cname alias_world (λ _. give alias_of_c) 8 a_type (alias_answer ∷ []) warm_resolver
    ≡ continue_with
        (look_name alias_world
          (λ _. give alias_of_c)
          (98 ∷ [])
          a_type
          (record warm_resolver { events = 1 }))
        (after_hop alias_world
          (λ _. give alias_of_c)
          ((alias_answer ∷ []) ++ alias_of_c.answers)
          (λ more.
            follow_cname alias_world
              (λ _. give alias_of_c)
              6
              a_type
              (((alias_answer ∷ []) ++ alias_of_c.answers) ++ more)))
unfolding cname_target get_cname_record has_type look_name
follow_cname-repeats_example =
    follow_cname-repeats alias_world (λ _. give alias_of_c) 6 a_type (alias_answer ∷ []) alias_of_c
      warm_resolver (record warm_resolver { events = 1 }) refl refl refl refl

-- Of two additional records only the one with the name that is asked for is taken.
abbrev other_host : DnsRecord
other_host = record one_answer { name = 98 ∷ [] }

glue-AreBrought_example :
    All
      (IsBrought ((97 ∷ []) ∷ []) (one_answer ∷ other_host ∷ []))
      (glue ((97 ∷ []) ∷ []) (one_answer ∷ other_host ∷ []) [])
glue-AreBrought_example = glue-AreBrought ((97 ∷ []) ∷ []) (one_answer ∷ other_host ∷ [])

abbrev cold_resolver : Resolver
cold_resolver = record { cache = empty_cache; servers = []; events = 0 }

answer_negative-remembers_example :
    (r' : Resolver) × (answer_negative alias_world
        (lookup alias_world 1)
        some_query
        (make_question (97 ∷ []) a_type)
        CacheResult.nxdomain
        some_response
        cold_resolver
      ≡ found (finalize_response some_response some_query) r')
    × (find (make_key (97 ∷ []) a_type) r'.cache.cache
        ≡ some (negative_entry CacheResult.nxdomain some_response 0))
    × (0 + second ≤ (negative_entry CacheResult.nxdomain some_response 0).expiration_time)
    × (r'.servers ≡ [])
    × (r'.events ≡ 2)
unfolding extract_negative_ttl negative_ttl_in
answer_negative-remembers_example =
    answer_negative-remembers alias_world (lookup alias_world 1) some_query
      (make_question (97 ∷ []) a_type) CacheResult.nxdomain some_response cold_resolver refl
      (omega arith)
