-- ===== src/Resolver/Cached.antt =====
-- A lookup that the cache answers.
use dns_server_cpp.Cache.Defs.{
  CacheResult, DnsCacheEntry, count_hit, expired, find, get, is_positive, make_key,
}
use dns_server_cpp.Common.{
  List, [], ap, arith, false, if◌then◌else◌, leb, refl, some, suc, ℕ, ◌+◌, ◌<◌, ◌∙◌, ◌≡◌,
}
use dns_server_cpp.Header.Defs.{code_number}
use dns_server_cpp.Header.Flags.{view_flags}
use dns_server_cpp.Packet.Defs.{DnsPacket}
use dns_server_cpp.Question.Defs.{DnsQuestion}
use dns_server_cpp.Record.Defs.{DnsRecord}
use dns_server_cpp.Resolver.Defs.{cached_response, entry_code}
use dns_server_cpp.Resolver.Final.{RepliesTo, cached_response-RepliesTo}
use dns_server_cpp.Resolver.Lookup.{look_packet, look_question, lookup}
use dns_server_cpp.Resolver.Task.{Resolver, World, cache_get, found}

-- A look-up that finds an entry ends the lookup.
pub lookup-hit :
    (w : World) (depth : ℕ) (query : DnsPacket) (q : DnsQuestion) (e : DnsCacheEntry) (r : Resolver)
    → query.question ≡ some q
    → find (make_key q.name q.type) r.cache.cache ≡ some e
    → w.clock r.events < e.expiration_time
    → (r' : Resolver) × (lookup w (suc depth) query r ≡ found (cached_response query e) r')
      × RepliesTo query (cached_response query e)
      × (r'.cache.cache ≡ r.cache.cache)
      × (r'.servers ≡ r.servers)
unfolding lookup look_packet look_question cache_get get expired
lookup-hit w depth query q e r asked there live =
    let fresh : leb e.expiration_time (w.clock r.events) ≡ false = ground (arith, live) in
    (
      record r { cache = count_hit r.cache; events = r.events + 1 },
      rw (asked, there, fresh),
      (cached_response-RepliesTo query e).0,
      refl,
      refl,
    )

-- What the cache knows of a result: the code that a client is told, 3 where the name does not exist,
-- and the records.
abbrev told_code : CacheResult → ℕ
told_code CacheResult.positive = 0
told_code CacheResult.nxdomain = 3
told_code CacheResult.nodata = 0

abbrev told_records : CacheResult → List DnsRecord → List DnsRecord
told_records CacheResult.positive records = records
told_records CacheResult.nxdomain records = []
told_records CacheResult.nodata records = []

told_code_lem : (result : CacheResult) → code_number (entry_code result) ≡ told_code result
told_code_lem CacheResult.positive = refl
told_code_lem CacheResult.nxdomain = refl
told_code_lem CacheResult.nodata = refl

cached_response-records :
    (query : DnsPacket) (e : DnsCacheEntry)
    → (cached_response query e).answers ≡ told_records e.result e.records
unfolding cached_response
cached_response-records query e = go e.result
  where
    go :
        (result : CacheResult)
        → (if is_positive result then e.records else []) ≡ told_records result e.records
    go CacheResult.positive = refl
    go CacheResult.nxdomain = refl
    go CacheResult.nodata = refl

-- A query for which the cache has an entry that has not expired is answered from it: the packet replies
-- to the query and has its question. For a positive entry it has the records of the entry and no error,
-- for a name without records of the type it has no answers and no error, and for a name that does not
-- exist it has no answers and the code 3. The tables of the cache and of the root servers stay as they
-- are.
pub lookup-cached :
    (w : World) (depth : ℕ) (query : DnsPacket) (q : DnsQuestion) (e : DnsCacheEntry) (r : Resolver)
    → query.question ≡ some q
    → find (make_key q.name q.type) r.cache.cache ≡ some e
    → w.clock r.events < e.expiration_time
    → (p : DnsPacket) × (r' : Resolver) × (lookup w (suc depth) query r ≡ found p r')
      × RepliesTo query p
      × (p.question ≡ query.question)
      × (p.answers ≡ told_records e.result e.records)
      × (code_number (view_flags p.header).code ≡ told_code e.result)
      × (r'.cache.cache ≡ r.cache.cache)
      × (r'.servers ≡ r.servers)
lookup-cached w depth query q e r asked there live =
    let (r', found_it, replies, kept, same) = lookup-hit w depth query q e r asked there live in
    let (_, code, question) = cached_response-RepliesTo query e in
    (
      cached_response query e,
      r',
      found_it,
      replies,
      question,
      cached_response-records query e,
      ap code_number code ∙ told_code_lem e.result,
      kept,
      same,
    )
