-- ===== src/Resolver/Resolved.antt =====
-- A lookup that follows referrals to an answer, and the same lookup again.
use dns_server_cpp.Address.Defs.{IpAddress}
use dns_server_cpp.Cache.Defs.{
  DnsCache, DnsCacheEntry, DnsCacheKey, count_miss, find, make_key, put_records,
}
use dns_server_cpp.Cache.Entries.{find-assign-same}
use dns_server_cpp.Cache.Lifetimes.{put_records_lem, records_entry}
use dns_server_cpp.Common.{
  List, [], ap, arith, false, is_empty, none, refl, some, suc, true, ℕ, ◌+◌, ◌-◌, ◌<◌, ◌==◌, ◌∙◌,
  ◌∷◌, ◌≡◌,
}
use dns_server_cpp.Header.Defs.{is_response}
use dns_server_cpp.Packet.Defs.{DnsPacket}
use dns_server_cpp.Question.Defs.{DnsQuestion, cname_type}
use dns_server_cpp.Record.Defs.{DnsRecord}
use dns_server_cpp.Resolver.Cached.{lookup-hit}
use dns_server_cpp.Resolver.Defs.{cached_response, finalize_response}
use dns_server_cpp.Resolver.Final.{RepliesTo, finalize_response-RepliesTo}
use dns_server_cpp.Resolver.Hops.{
  answer_found-chased, chase-ends, has_type-filled, look_packet-asked,
}
use dns_server_cpp.Resolver.Lookup.{answer_found, follow_referrals, has_type, lookup, max_referrals}
use dns_server_cpp.Resolver.Referrals.{Leads, follow_referrals-Leads}
use dns_server_cpp.Resolver.Task.{Resolver, Task, World, ask_roots, found}
use dns_server_cpp.Roots.Defs.{RootServer}

-- Answers that are put into the cache are there, unless their time has passed between the two readings
-- of the clock.
put_records-there :
    (k : DnsCacheKey) (rs : List DnsRecord) (made now : ℕ) (c : DnsCache)
    → is_empty rs ≡ false
    → now < (records_entry rs 60 made).expiration_time
    → find k (put_records k rs 60 made now c).cache ≡ some (records_entry rs 60 made)
put_records-there k [] made now c h l = cc h
put_records-there k (r ∷ rs) made now c h l =
    rw (put_records_lem k r rs 60 made now c l)
      (find-assign-same k (records_entry (r ∷ rs) 60 made) c.cache)

-- A response with answers of the type that is asked for ends the loop.
follow_referrals-answered :
    (w : World) (look : DnsPacket → Task DnsPacket) (query last : DnsPacket) (q : DnsQuestion)
    (left : ℕ) (queried : List IpAddress) (r : Resolver)
    → is_response last.header ≡ true
    → is_empty last.answers ≡ false
    → follow_referrals w look (suc left) query q queried last r ≡ answer_found w look query q last r
unfolding follow_referrals
follow_referrals-answered w look query last q left queried r h k = simp (h, k)

module _ (w : World) (depth : ℕ) (query p last : DnsPacket) (q : DnsQuestion) (c : DnsCache)
    (servers servers' : List RootServer) (event : ℕ) {n : ℕ} {queried : List IpAddress}
    (asks : query.question ≡ some q) (other : (q.type == cname_type) ≡ false)
    (uncached : find (make_key q.name q.type) c.cache ≡ none)
    (asked : ask_roots w query
        (record { cache = count_miss c; servers = servers; events = event + 1 })
      ≡ found p (record { cache = count_miss c; servers = servers'; events = event + 1 + 1 }))
    (leads : Leads w query [] p n queried last) (short : n < max_referrals)
    (responds : is_response last.header ≡ true) (answers : has_type q.type last.answers ≡ true)
    (lasting : (e : ℕ)
      → w.clock (e + 1) < (records_entry last.answers 60 (w.clock e)).expiration_time) where
  -- For a query of another type than CNAME, where the table of the cache has no entry for its name and
  -- type: where the root servers' response leads to a response with answers of the type, over fewer than
  -- 16 referrals, each of which brings along addresses of name servers that it names, of which one has a
  -- usable response and those asked reply the same whenever they are asked, the lookup returns the response that
  -- answers, made a reply to the query, with its answers. They are in the cache then, with a TTL of at
  -- most a minute, provided that less than that passes between two readings of the clock that follow
  -- each other.
  pub lookup-resolved :
      (r' : Resolver) × (made : ℕ) × (lookup w
          (suc depth)
          query
          (record { cache = c; servers = servers; events = event })
        ≡ found (finalize_response last query) r')
      × RepliesTo query (finalize_response last query)
      × ((finalize_response last query).answers ≡ last.answers)
      × (find (make_key q.name q.type) r'.cache.cache
          ≡ some (records_entry last.answers 60 (w.clock made)))
      × (r'.servers ≡ servers')
      × (r'.events ≡ made + 2)
  unfolding lookup
  lookup-resolved =
      let filled = has_type-filled q.type last.answers answers in
      let (event', led) =
        follow_referrals-Leads (lookup w depth) leads q (suc (15 - n)) max_referrals
          (record { cache = count_miss c; servers = servers'; events = event + 1 + 1 })
          (omega (arith, short)) in
      let r : Resolver = record { cache = count_miss c; servers = servers'; events = event' } in
      let (r', found_it, same, counted, there) =
        answer_found-chased w (lookup w depth) q other query last last.answers r r
          (chase-ends w (lookup w depth) q other last.answers r answers) in
      let final = finalize_response-RepliesTo last query responds in
      (
        r',
        event',
        look_packet-asked w (lookup w depth) query p q c servers servers' event asks uncached asked
            ∙ led
            ∙ follow_referrals-answered w (lookup w depth) query last q (15 - n) queried r responds
                filled
            ∙ found_it,
        final.0,
        final.3,
        ap (λ (x : DnsCache). find (make_key q.name q.type) x.cache) there
            ∙ put_records-there (make_key q.name q.type) last.answers (w.clock event')
                (w.clock (event' + 1)) (count_miss c) filled (lasting event'),
        same,
        counted,
      )

  -- For a query of another type than CNAME, where the table of the cache has no entry for its name and
  -- type, and where the root servers' response leads to a response with answers of the type, over fewer
  -- than 16 referrals, each of which brings along addresses of name servers that it names, of which one
  -- has a usable response and those asked reply the same whenever they are asked: the same query again is
  -- answered by the cache, with the same answers and without the root servers being asked, provided that
  -- the TTL, at most a minute, has passed at neither of the two readings of the clock that follow the
  -- one the entry was made with.
  pub lookup-twice :
      ((e : ℕ) → w.clock (e + 2) < (records_entry last.answers 60 (w.clock e)).expiration_time)
      → (r' r'' : Resolver) × (again : DnsPacket) × (lookup w
            (suc depth)
            query
            (record { cache = c; servers = servers; events = event })
          ≡ found (finalize_response last query) r')
        × (lookup w (suc depth) query r' ≡ found again r'')
        × RepliesTo query again
        × (again.answers ≡ last.answers)
        × (r''.servers ≡ r'.servers)
        × (r''.cache.cache ≡ r'.cache.cache)
  lookup-twice longer =
      let (r', made, first, _, _, there, _, counted) = lookup-resolved in
      let entry : DnsCacheEntry = records_entry last.answers 60 (w.clock made) in
      let (r'', second_one, replies, kept, same) =
        lookup-hit w depth query q entry r' asks there (rw counted (longer made)) in
      (
        r',
        r'',
        cached_response query entry,
        first,
        second_one,
        replies,
        unfold cached_response in refl,
        same,
        kept,
      )
