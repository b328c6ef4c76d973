-- ===== src/Resolver/Replies.antt =====
-- Every lookup replies to its query, whatever the network answers.
use dns_server_cpp.Address.Defs.{IpAddress}
use dns_server_cpp.Cache.Defs.{CacheResult, DnsCacheEntry, make_key, nodata}
use dns_server_cpp.Common.{
  List, Option, [], arith, inl, inr, is_empty, none, not, refl, some, suc, true, zero, ℕ, ◌&&◌,
  ◌++◌, ◌==◌, ◌||◌, ◌∷◌, ◌≡◌,
}
use dns_server_cpp.Header.Defs.{get_result_code, is_noerror, is_nxdomain, is_response}
use dns_server_cpp.Packet.Defs.{DnsPacket, empty_packet}
use dns_server_cpp.Question.Defs.{DnsQuestion, QuestionType, a_type, aaaa_type, cname_type}
use dns_server_cpp.Record.Defs.{DnsRecord}
use dns_server_cpp.Resolver.Answered.{
  Anything, Ends, IsReply, IsSound, KeepsRoots, ask_roots-IsSound, bind-IsSound, cache_get-IsSound,
  cache_records-IsSound, cache_result-IsSound, finalize_response-IsReply, give-IsSound, if-IsSound,
  next_event-IsSound, query_server-IsSound,
}
use dns_server_cpp.Resolver.Final.{cached_response-RepliesTo}
use dns_server_cpp.Resolver.Lookup.{
  add_answers, after_cache, after_candidates, answer_error, answer_found, answer_negative,
  ask_candidates, chase_alias, cname_target, follow_cname, follow_referrals, glue, has_type,
  is_usable, look_at, look_name, look_packet, look_question, lookup, max_cname_hops, max_referrals,
  name_query, next_candidates, ns_names, query_candidates, resolve_names,
}
use dns_server_cpp.Resolver.Task.{Looked, Task, World, fault, found, give, thrown, too_deep}
use dns_server_cpp.Roots.Ask.{is_tried}

module _ {A : Type 0} {Q R : A → Type 0} where
  Ends-weaken : (o : Looked A) → Ends Q o → ((a : A) → Q a → R a) → Ends R o
  Ends-weaken (found a r) h f = (f a h.0, h.1)
  Ends-weaken (thrown r) h f = h
  Ends-weaken fault h f = h
  Ends-weaken too_deep h f = tt

  weaken-IsSound : {m : Task A} → IsSound Q m → ((a : A) → Q a → R a) → IsSound R m
  weaken-IsSound {m} s f = record { run = λ r v. Ends-weaken (m r) (s.run r v) f }

module _ (w : World) (keeps : KeepsRoots w) (look : DnsPacket → Task DnsPacket)
    (sound : (query : DnsPacket) → IsSound Anything (look query)) where
  look_name-IsSound :
      (name : List ℕ) (t : QuestionType) → IsSound Anything (look_name w look name t)
  unfolding look_name
  look_name-IsSound name t =
      bind-IsSound {f = λ n. look (name_query (w.query_id n) name t none)} next_event-IsSound
        λ n _. sound (name_query (w.query_id n) name t none)

  follow_cname-IsSound :
      (hops : ℕ) (t : QuestionType) (answers : List DnsRecord)
      → IsSound Anything (follow_cname w look hops t answers)
  unfolding follow_cname
  follow_cname-IsSound zero t answers = give-IsSound answers tt
  follow_cname-IsSound (suc hops) t answers =
      if-IsSound (has_type t answers || is_empty (cname_target answers))
        (λ _. give-IsSound answers tt)
        (λ _. bind-IsSound (look_name-IsSound (cname_target answers) t) λ p _.
          if-IsSound (is_empty p.answers) (λ _. give-IsSound answers tt)
            (λ _. follow_cname-IsSound hops t (answers ++ p.answers)))

  chase_alias-IsSound :
      (q : DnsQuestion) (answers : List DnsRecord) → IsSound Anything (chase_alias w look q answers)
  unfolding chase_alias
  chase_alias-IsSound q answers =
      if-IsSound (not (q.type == cname_type))
        (λ _. follow_cname-IsSound max_cname_hops q.type answers) (λ _. give-IsSound answers tt)

  resolve_names-IsSound :
      (names : List (List ℕ)) (candidates : List IpAddress)
      → IsSound Anything (resolve_names w look names candidates)
  unfolding resolve_names
  resolve_names-IsSound [] candidates = give-IsSound candidates tt
  resolve_names-IsSound (name ∷ names) candidates =
      bind-IsSound (look_name-IsSound name a_type) λ p _.
        bind-IsSound (look_name-IsSound name aaaa_type) λ q _.
          resolve_names-IsSound names (add_answers q.answers (add_answers p.answers candidates))

  -- The packet of a candidate is a response.
  abbrev IsFound : Option DnsPacket × List IpAddress → Type 0
  IsFound (none, queried) = Unit
  IsFound (some p, queried) = is_response p.header ≡ true

  query_candidates-IsSound :
      (query : DnsPacket) (candidates queried : List IpAddress)
      → IsSound IsFound (query_candidates w look query candidates queried)
  unfolding query_candidates
  query_candidates-IsSound query [] queried = give-IsSound (none, queried) tt
  query_candidates-IsSound query (a ∷ candidates) queried =
      if-IsSound (is_tried queried a) (λ _. query_candidates-IsSound query candidates queried)
        (λ _. bind-IsSound (query_server-IsSound w query a) λ p _.
          if-IsSound (is_usable p)
            (λ t. give-IsSound (some p, queried ++ (a ∷ [])) (ground (arith, t)))
            (λ _. query_candidates-IsSound query candidates (queried ++ (a ∷ []))))

  answer_found-IsSound :
      (query : DnsPacket) (q : DnsQuestion) (response : DnsPacket)
      → IsSound (IsReply query) (answer_found w look query q response)
  unfolding answer_found
  answer_found-IsSound query q response =
      bind-IsSound (chase_alias-IsSound q response.answers) λ answers _.
        bind-IsSound (cache_records-IsSound w (make_key q.name q.type) answers) λ _ _.
          give-IsSound _ (finalize_response-IsReply (record response { answers = answers }) query)

  answer_negative-IsSound :
      (query : DnsPacket) (q : DnsQuestion) (result : CacheResult) (response : DnsPacket)
      → IsSound (IsReply query) (answer_negative w look query q result response)
  unfolding answer_negative
  answer_negative-IsSound query q result response =
      bind-IsSound (cache_result-IsSound w (make_key q.name q.type) result _)
        λ _ _. give-IsSound _ (finalize_response-IsReply response query)

  answer_error-IsSound :
      (query : DnsPacket) (q : DnsQuestion) (response : DnsPacket)
      → IsSound (IsReply query) (answer_error w look query q response)
  unfolding answer_error
  answer_error-IsSound query q response =
      if-IsSound (is_nxdomain (get_result_code response.header))
        (λ _. answer_negative-IsSound query q _ response)
        (λ _. give-IsSound _ (finalize_response-IsReply response query))

  next_candidates-IsSound :
      (response : DnsPacket) → IsSound Anything (next_candidates w look response)
  unfolding next_candidates
  next_candidates-IsSound response =
      let names : List (List ℕ) = ns_names response.authorities in
      let brought : List IpAddress = glue names response.additionals [] in
      if-IsSound (is_empty brought) {k = give brought} (λ _. resolve_names-IsSound names [])
        (λ _. give-IsSound brought tt)

  after_candidates-IsSound :
      (query : DnsPacket) (q : DnsQuestion) (response : DnsPacket)
      (next : List IpAddress → DnsPacket → Task DnsPacket)
      → ((queried : List IpAddress) (p : DnsPacket) → IsSound (IsReply query) (next queried p))
      → (o : Option DnsPacket × List IpAddress)
      → IsSound (IsReply query) (after_candidates w look query q response next o)
  after_candidates-IsSound query q response next k (none, queried) =
      answer_negative-IsSound query q nodata response
  after_candidates-IsSound query q response next k (some p, queried) = k queried p

  ask_candidates-IsSound :
      (query : DnsPacket) (q : DnsQuestion) (queried : List IpAddress) (response : DnsPacket)
      (next : List IpAddress → DnsPacket → Task DnsPacket)
      → ((queried' : List IpAddress) (p : DnsPacket) → IsSound (IsReply query) (next queried' p))
      → (candidates : List IpAddress)
      → IsSound (IsReply query) (ask_candidates w look query q queried response next candidates)
  ask_candidates-IsSound query q queried response next k candidates =
      if-IsSound (is_empty candidates) (λ _. answer_negative-IsSound query q nodata response)
        (λ _.
          bind-IsSound (query_candidates-IsSound query candidates queried)
            λ o _. after_candidates-IsSound query q response next k o)

  -- Whatever response the loop starts with, it ends with a reply to the query.
  follow_referrals-IsSound :
      (left : ℕ) (query : DnsPacket) (q : DnsQuestion) (queried : List IpAddress)
      (response : DnsPacket)
      → IsSound (IsReply query) (follow_referrals w look left query q queried response)
  unfolding follow_referrals
  follow_referrals-IsSound zero query q queried response =
      give-IsSound _ (finalize_response-IsReply response query)
  follow_referrals-IsSound (suc left) query q queried response =
      if-IsSound (not (is_response response.header))
        (λ t. give-IsSound response (inl (ground (arith, t))))
        λ _.
          if-IsSound (not (is_empty response.answers)) (λ _. answer_found-IsSound query q response)
            λ _.
              if-IsSound (not (is_noerror (get_result_code response.header)))
                (λ _. answer_error-IsSound query q response)
                λ _.
                  if-IsSound (is_empty response.authorities && is_empty response.additionals)
                    (λ _. answer_negative-IsSound query q nodata response)
                    λ _. bind-IsSound (next_candidates-IsSound response) λ candidates _.
                      ask_candidates-IsSound query q queried response
                        (follow_referrals w look left query q)
                        (follow_referrals-IsSound left query q) candidates

  after_cache-IsSound :
      (query : DnsPacket) (q : DnsQuestion) (o : Option DnsCacheEntry)
      → IsSound (IsReply query) (after_cache w look query q o)
  after_cache-IsSound query q (some e) = give-IsSound _ (inr (cached_response-RepliesTo query e).0)
  after_cache-IsSound query q none =
      bind-IsSound (ask_roots-IsSound w keeps query)
        λ response _. follow_referrals-IsSound max_referrals query q [] response

  look_at-IsSound :
      (query : DnsPacket) (o : Option DnsQuestion)
      → IsSound (IsReply query) (look_at w look query o)
  unfolding look_question
  look_at-IsSound query none = give-IsSound empty_packet (inl (unfold is_response in refl))
  look_at-IsSound query (some q) =
      bind-IsSound (cache_get-IsSound w (make_key q.name q.type))
        λ o _. after_cache-IsSound query q o

-- A lookup from a cache with its invariant never ends in a fault. A packet that it returns replies
-- to the query, or is no response at all, and the cache keeps its invariant, also where an exception
-- leaves the lookup. The surroundings may
-- answer as they like; of the calls of the root servers' manager it is asked that they keep the
-- addresses of the table. Of a lookup that is cut off at its depth nothing is said.
pub lookup-IsSound :
    (w : World) (depth : ℕ) (query : DnsPacket)
    → KeepsRoots w
    → IsSound (IsReply query) (lookup w depth query)
unfolding lookup look_packet
lookup-IsSound w zero query keeps = record { run = λ r v. tt }
lookup-IsSound w (suc depth) query keeps = record {
  run =
      (look_at-IsSound w keeps (lookup w depth)
        (λ q. weaken-IsSound (lookup-IsSound w depth q keeps) (λ p _. tt)) query
        query.question).run;
}
