-- ===== src/Resolver/Lookup.antt =====
-- `DnsResolver::lookup` (src/DnsResolver.cxx): the cache, the root servers, and the loop that follows
-- referrals. The recursive calls for an alias or a name server go through the argument `look`.
use dns_server_cpp.Address.Defs.{IpAddress}
use dns_server_cpp.Cache.Defs.{CacheResult, DnsCacheEntry, make_key, nodata}
use dns_server_cpp.Common.{
  Bool, List, Option, [], cons_some, false, get_or, if◌then◌else◌, is_empty, none, not, some, suc,
  zero, ℕ, ◌&&◌, ◌++◌, ◌==◌, ◌||◌, ◌∷◌,
}
use dns_server_cpp.Header.Defs.{
  empty_header, get_result_code, is_noerror, is_nxdomain, is_response, set_recursion_desired,
}
use dns_server_cpp.Packet.Defs.{
  DnsPacket, EdnsInfo, create_additional_opt_record, empty_packet, set_question,
}
use dns_server_cpp.Question.Defs.{
  DnsQuestion, QuestionType, a_type, aaaa_type, cname_type, make_question,
}
use dns_server_cpp.Record.Defs.{DnsRecord, get_cname_record, get_ip_address, get_ns_record}
use dns_server_cpp.Resolver.Defs.{
  cached_response, equals_ignore_case, extract_negative_ttl, finalize_response,
}
use dns_server_cpp.Resolver.Task.{
  Task, World, ask_roots, cache_get, cache_records, cache_result, give, next_event, query_server,
  too_deep, ◌>>=◌, ◌>>◌,
}
use dns_server_cpp.Roots.Ask.{is_tried}
use dns_server_cpp.Roots.Defs.{any_of}

abbrev pub max_referrals : ℕ
max_referrals = 16

abbrev pub max_cname_hops : ℕ
max_cname_hops = 10

-- The OPT record of a query with EDNS.
abbrev pub add_query_opt : Option EdnsInfo → DnsPacket → DnsPacket
add_query_opt none p = p
add_query_opt (some e) p = create_additional_opt_record e.max_payload_size 0 e.version e.dnssec_ok p

-- The packet that `lookup` of a name sends. The resolver's own calls are without EDNS.
unfoldable pub name_query : ℕ → List ℕ → QuestionType → Option EdnsInfo → DnsPacket
name_query id domain type edns =
    set_question (make_question domain type) (record (add_query_opt edns empty_packet) {
      header = record (set_recursion_desired false (record empty_header { id = id })) {
        qdcount = 1;
      };
    })

-- The first CNAME record's target; nothing found is the empty name.
unfoldable pub cname_target : List DnsRecord → List ℕ
cname_target [] = []
cname_target (r ∷ rs) =
    let later = cname_target rs in
    if r.type == cname_type then get_or later (get_cname_record r) else later

unfoldable pub has_type : QuestionType → List DnsRecord → Bool
has_type type answers = any_of (λ (r : DnsRecord). r.type == type) answers

-- The hosts that the NS records name.
unfoldable pub ns_names : List DnsRecord → List (List ℕ)
ns_names [] = []
ns_names (r ∷ rs) = cons_some (get_ns_record r) (ns_names rs)

-- `add_candidate`.
unfoldable pub add_candidate : List IpAddress → Option IpAddress → List IpAddress
add_candidate candidates none = candidates
add_candidate candidates (some ip) =
    if is_tried candidates ip then candidates else candidates ++ (ip ∷ [])

-- The addresses of the records with a name.
unfoldable pub add_glue : List ℕ → List DnsRecord → List IpAddress → List IpAddress
add_glue name [] candidates = candidates
add_glue name (r ∷ rs) candidates = add_glue name rs (
    if equals_ignore_case r.name name
    then add_candidate candidates (get_ip_address r)
    else candidates)

unfoldable pub glue : List (List ℕ) → List DnsRecord → List IpAddress → List IpAddress
glue [] additionals candidates = candidates
glue (name ∷ names) additionals candidates =
    glue names additionals (add_glue name additionals candidates)

-- The addresses of all answers.
unfoldable pub add_answers : List DnsRecord → List IpAddress → List IpAddress
add_answers [] candidates = candidates
add_answers (r ∷ rs) candidates = add_answers rs (add_candidate candidates (get_ip_address r))

abbrev pub has_content : DnsPacket → Bool
has_content p =
    not (is_noerror (get_result_code p.header))
    || not (is_empty p.answers)
    || not (is_empty p.authorities)
    || not (is_empty p.additionals)

-- A response that the referral loop can go on with.
abbrev pub is_usable : DnsPacket → Bool
is_usable p = is_response p.header && has_content p

module _ (w : World) (look : DnsPacket → Task DnsPacket) where
  -- `lookup` of a name and a type.
  unfoldable pub look_name : List ℕ → QuestionType → Task DnsPacket
  look_name domain type = do n ← next_event; look (name_query (w.query_id n) domain type none)

  -- A hop without answers ends the loop; the answers of one that has some are appended.
  abbrev pub after_hop :
      List DnsRecord → (List DnsRecord → Task (List DnsRecord)) → DnsPacket → Task (List DnsRecord)
  after_hop answers next p = if is_empty p.answers then give answers else next p.answers

  -- The loop over the hops of an alias, on the hops left.
  unfoldable pub follow_cname : ℕ → QuestionType → List DnsRecord → Task (List DnsRecord)
  follow_cname zero type answers = give answers
  follow_cname (suc hops) type answers =
      let next : List DnsRecord → Task (List DnsRecord) =
        λ more. follow_cname hops type (answers ++ more) in
      if has_type type answers || is_empty (cname_target answers)
      then give answers
      else (look_name (cname_target answers) type >>= after_hop answers next)

  -- An alias is followed unless the alias itself was asked for.
  unfoldable pub chase_alias : DnsQuestion → List DnsRecord → Task (List DnsRecord)
  chase_alias q answers =
      if not (q.type == cname_type)
      then follow_cname max_cname_hops q.type answers
      else give answers

  -- The addresses of the name servers, looked up one by one.
  unfoldable pub resolve_names : List (List ℕ) → List IpAddress → Task (List IpAddress)
  resolve_names [] candidates = give candidates
  resolve_names (name ∷ names) candidates = do
    p ← look_name name a_type
    q ← look_name name aaaa_type
    resolve_names names (add_answers q.answers (add_answers p.answers candidates))

  -- A usable response ends the loop.
  abbrev pub after_query :
      List IpAddress
      → Task (Option DnsPacket × List IpAddress)
      → DnsPacket
      → Task (Option DnsPacket × List IpAddress)
  after_query queried next p = if is_usable p then give (some p, queried) else next

  -- The candidates in turn, until one answers; with the addresses queried so far.
  unfoldable pub query_candidates :
      DnsPacket → List IpAddress → List IpAddress → Task (Option DnsPacket × List IpAddress)
  query_candidates query [] queried = give (none, queried)
  query_candidates query (a ∷ candidates) queried =
      let skip = query_candidates query candidates queried in
      let next = query_candidates query candidates (queried ++ (a ∷ [])) in
      if is_tried queried a
      then skip
      else (query_server w query a >>= after_query (queried ++ (a ∷ [])) next)

  -- The answer section is there: follow an alias, and put the answers into the cache.
  unfoldable pub answer_found : DnsPacket → DnsQuestion → DnsPacket → Task DnsPacket
  answer_found query q response = do
    answers ← chase_alias q response.answers
    cache_records w (make_key q.name q.type) answers
    give (finalize_response (record response { answers = answers }) query)

  -- A negative answer goes into the cache.
  unfoldable pub answer_negative :
      DnsPacket → DnsQuestion → CacheResult → DnsPacket → Task DnsPacket
  answer_negative query q result response = do
    cache_result w (make_key q.name q.type) result (extract_negative_ttl response)
    give (finalize_response response query)

  -- The response has a code: a name that does not exist is remembered.
  unfoldable pub answer_error : DnsPacket → DnsQuestion → DnsPacket → Task DnsPacket
  answer_error query q response =
      if is_nxdomain (get_result_code response.header)
      then answer_negative query q CacheResult.nxdomain response
      else give (finalize_response response query)

  -- The addresses to ask next: those the response brings along, else those looked up.
  unfoldable pub next_candidates : DnsPacket → Task (List IpAddress)
  next_candidates response =
      let names = ns_names response.authorities in
      let brought = glue names response.additionals [] in
      if is_empty brought then resolve_names names [] else give brought

  -- What follows the queries of the candidates: the loop goes on where one answered.
  abbrev pub after_candidates :
      DnsPacket
      → DnsQuestion
      → DnsPacket
      → (List IpAddress → DnsPacket → Task DnsPacket)
      → Option DnsPacket × List IpAddress
      → Task DnsPacket
  after_candidates query q response next (none, queried) = answer_negative query q nodata response
  after_candidates query q response next (some p, queried) = next queried p

  abbrev pub ask_candidates :
      DnsPacket
      → DnsQuestion
      → List IpAddress
      → DnsPacket
      → (List IpAddress → DnsPacket → Task DnsPacket)
      → List IpAddress
      → Task DnsPacket
  ask_candidates query q queried response next candidates =
      if is_empty candidates
      then answer_negative query q nodata response
      else (query_candidates query candidates queried >>= after_candidates query q response next)

  -- The loop, on the referrals left.
  unfoldable pub follow_referrals :
      ℕ → DnsPacket → DnsQuestion → List IpAddress → DnsPacket → Task DnsPacket
  follow_referrals zero query q queried response = give (finalize_response response query)
  follow_referrals (suc left) query q queried response =
      let next : List IpAddress → DnsPacket → Task DnsPacket = follow_referrals left query q in
      if not (is_response response.header)
      then give response
      else if not (is_empty response.answers)
      then answer_found query q response
      else if not (is_noerror (get_result_code response.header))
      then answer_error query q response
      else if is_empty response.authorities && is_empty response.additionals
      then answer_negative query q nodata response
      else (next_candidates response >>= ask_candidates query q queried response next)

  -- The cache's answer, or else the root servers' and the referrals behind it.
  abbrev pub after_cache : DnsPacket → DnsQuestion → Option DnsCacheEntry → Task DnsPacket
  after_cache query q (some e) = give (cached_response query e)
  after_cache query q none = ask_roots w query >>= follow_referrals max_referrals query q []

  unfoldable pub look_question : DnsPacket → DnsQuestion → Task DnsPacket
  look_question query q = cache_get w (make_key q.name q.type) >>= after_cache query q

  abbrev pub look_at : DnsPacket → Option DnsQuestion → Task DnsPacket
  look_at query none = give empty_packet
  look_at query (some q) = look_question query q

  unfoldable pub look_packet : DnsPacket → Task DnsPacket
  look_packet query = look_at query query.question

-- `lookup`, on the depth of recursive calls.
unfoldable pub lookup : World → ℕ → DnsPacket → Task DnsPacket
lookup w zero query r = too_deep
lookup w (suc depth) query r = look_packet w (lookup w depth) query r
