-- ===== src/Resolver/Denied.antt =====
-- A lookup that follows referrals to a negative answer, and the same lookup again.
use dns_server_cpp.Address.Defs.{IpAddress}
use dns_server_cpp.Cache.Defs.{
  CacheResult, DnsCache, DnsCacheEntry, count_miss, find, is_positive, make_key, nodata,
}
use dns_server_cpp.Common.{
  Bool-cases, List, [], arith, false, inl, inr, is_empty, none, refl, some, suc, true, ℕ, ◌&&◌, ◌+◌,
  ◌-◌, ◌<◌, ◌∙◌, ◌≡◌,
}
use dns_server_cpp.Header.Defs.{get_result_code, is_noerror, is_nxdomain, is_response}
use dns_server_cpp.Header.Flags.{view_flags}
use dns_server_cpp.Packet.Defs.{DnsPacket}
use dns_server_cpp.Question.Defs.{DnsQuestion}
use dns_server_cpp.Resolver.Cached.{lookup-hit}
use dns_server_cpp.Resolver.Defs.{cached_response, entry_code, finalize_response}
use dns_server_cpp.Resolver.Final.{
  RepliesTo, cached_response-RepliesTo, finalize_response-RepliesTo,
}
use dns_server_cpp.Resolver.Hops.{look_packet-asked}
use dns_server_cpp.Resolver.Lookup.{
  answer_error, answer_negative, follow_referrals, glue, lookup, max_referrals, next_candidates,
  ns_names, resolve_names,
}
use dns_server_cpp.Resolver.Negative.{answer_negative-remembers, negative_entry}
use dns_server_cpp.Resolver.Referrals.{Leads, follow_referrals-Leads}
use dns_server_cpp.Resolver.Task.{Resolver, Task, World, ask_roots, found}
use dns_server_cpp.Roots.Defs.{RootServer}

-- A response that denies the name, or that has no data for it and names no server to ask, with what the
-- cache remembers of it.
pub data Denies (p : DnsPacket) : CacheResult → Type 0 where
  no_name : is_nxdomain (get_result_code p.header) ≡ true → Denies p CacheResult.nxdomain
  no_data :
      is_noerror (get_result_code p.header) ≡ true → ns_names p.authorities ≡ [] → Denies p nodata

-- A negative answer ends the loop.
follow_referrals-denied :
    (w : World) (look : DnsPacket → Task DnsPacket) (query last : DnsPacket) (q : DnsQuestion)
    (left : ℕ) (queried : List IpAddress) (r : Resolver) {result : CacheResult}
    → is_response last.header ≡ true
    → is_empty last.answers ≡ true
    → Denies last result
    → follow_referrals w look (suc left) query q queried last r
      ≡ answer_negative w look query q result last r
unfolding follow_referrals answer_error next_candidates resolve_names glue
follow_referrals-denied w look query last q left queried r h k (no_name e) = ground (arith, h, k, e)
follow_referrals-denied w look query last q left queried r h k (no_data e names) =
    elim (Bool-cases (is_empty last.authorities && is_empty last.additionals)) [
      | inl t ↦ rw (h, k, e, t) refl
      | inr f ↦ rw (h, k, e, f, names) refl
    ]

Denies-negative :
    {p : DnsPacket} {result : CacheResult} → Denies p result → is_positive result ≡ false
Denies-negative (no_name e) = refl
Denies-negative (no_data e names) = refl

-- For a query for whose name and type the table of the cache has no entry: where the root servers'
-- response leads to a response that denies the name, or that has no data for it and names no server,
-- over fewer than 16 referrals, each of which brings along addresses of name servers that it names, of
-- which one has a usable response and those asked reply the same whenever they are asked, the lookup returns the
-- response that denies, made a reply to the query. The same query again is answered by the
-- cache, without the root servers being asked: with the code of the denial and without records,
-- provided that the TTL of the negative answer has passed at neither of the two readings of the clock
-- that follow the one the entry was made with.
pub lookup-denied :
    (w : World) (depth : ℕ) (query p last : DnsPacket) (q : DnsQuestion) (c : DnsCache)
    (servers servers' : List RootServer) (event : ℕ) {n : ℕ} {queried : List IpAddress}
    {result : CacheResult}
    → query.question ≡ some q
    → find (make_key q.name q.type) c.cache ≡ none
    → ask_roots w query (record { cache = count_miss c; servers = servers; events = event + 1 })
      ≡ found p (record { cache = count_miss c; servers = servers'; events = event + 1 + 1 })
    → Leads w query [] p n queried last
    → n < max_referrals
    → is_response last.header ≡ true
    → is_empty last.answers ≡ true
    → Denies last result
    → ((e : ℕ)
        → (w.clock (e + 1) < (negative_entry result last (w.clock e)).expiration_time)
          × (w.clock (e + 2) < (negative_entry result last (w.clock e)).expiration_time))
    → (r' r'' : Resolver) × (again : DnsPacket) × (lookup w
          (suc depth)
          query
          (record { cache = c; servers = servers; events = event })
        ≡ found (finalize_response last query) r')
      × RepliesTo query (finalize_response last query)
      × (lookup w (suc depth) query r' ≡ found again r'')
      × RepliesTo query again
      × ((view_flags again.header).code ≡ entry_code result)
      × (again.answers ≡ [])
      × (r'.servers ≡ servers')
      × (r''.servers ≡ servers')
unfolding lookup
lookup-denied w depth query p last q c servers servers' event {n} {queried} {result} questioned
      uncached asked leads short responds none_there denies lasting =
    let (event', led) =
      follow_referrals-Leads (lookup w depth) leads q (suc (15 - n)) max_referrals
        (record { cache = count_miss c; servers = servers'; events = event + 1 + 1 })
        (omega (arith, short)) in
    let r : Resolver = record { cache = count_miss c; servers = servers'; events = event' } in
    let entry : DnsCacheEntry = negative_entry result last (w.clock event') in
    let (r', remembered, there, _, same, counted) =
      answer_negative-remembers w (lookup w depth) query q result last r (Denies-negative denies)
        (lasting event').0 in
    let (r'', second_one, replies, kept, same') =
      lookup-hit w depth query q entry r' questioned there (rw counted (lasting event').1) in
    (
      r',
      r'',
      cached_response query entry,
      look_packet-asked w (lookup w depth) query p q c servers servers' event questioned uncached
            asked
          ∙ led
          ∙ follow_referrals-denied w (lookup w depth) query last q (15 - n) queried r responds
              none_there denies
          ∙ remembered,
      (finalize_response-RepliesTo last query responds).0,
      second_one,
      replies,
      (cached_response-RepliesTo query entry).1,
      unfold cached_response in rw (Denies-negative denies) refl,
      same,
      same' ∙ same,
    )
