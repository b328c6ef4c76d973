-- ===== src/Resolver/Negative.antt =====
-- Negative answers: how long they are remembered, and that they are.
use dns_server_cpp.Cache.Defs.{
  CacheResult, DnsCacheEntry, DnsCacheKey, assign, expired, find, is_positive, make_entry, make_key,
  put, put_result, second,
}
use dns_server_cpp.Cache.Entries.{find-assign-same}
use dns_server_cpp.Common.{
  List, Option-cases, [], arith, false, inl, inr, leb, ltb, refl, some, true, ℕ, ◌*◌, ◌+◌, ◌<◌, ◌∷◌,
  ◌≡◌, ◌≤◌,
}
use dns_server_cpp.Packet.Defs.{DnsPacket}
use dns_server_cpp.Question.Defs.{DnsQuestion}
use dns_server_cpp.Record.Defs.{DnsRecord, SoaRecord, get_soa_record}
use dns_server_cpp.Resolver.Defs.{
  default_negative_ttl, extract_negative_ttl, finalize_response, negative_ttl_in, negative_ttl_of,
}
use dns_server_cpp.Resolver.Lookup.{answer_negative}
use dns_server_cpp.Resolver.Task.{Resolver, Task, World, cache_result, found}

negative_ttl_of-positive :
    (r : DnsRecord) (soa : SoaRecord) (d : ℕ) → 0 < d → 0 < negative_ttl_of r soa d
unfolding negative_ttl_of
negative_ttl_of-positive r soa d h = ground arith

negative_ttl_in-positive : (rs : List DnsRecord) (d : ℕ) → 0 < d → 0 < negative_ttl_in rs d
unfolding negative_ttl_in
negative_ttl_in-positive [] d h = h
negative_ttl_in-positive (r ∷ rs) d h = elim (Option-cases (get_soa_record r)) [
  | inl e ↦ rw e (negative_ttl_in-positive rs d h)
  | inr (soa, e) ↦ rw e (negative_ttl_of-positive r soa d h)
]

extract_negative_ttl-positive : (p : DnsPacket) → 0 < extract_negative_ttl p
unfolding extract_negative_ttl
extract_negative_ttl-positive p =
    negative_ttl_in-positive p.authorities default_negative_ttl (omega arith)

-- The entry of a negative answer.
abbrev pub negative_entry : CacheResult → DnsPacket → ℕ → DnsCacheEntry
negative_entry result response made = make_entry [] result (extract_negative_ttl response) made

-- A negative answer is remembered: behind it the cache holds for the name and type an entry without
-- records, with the result and a TTL that is at least a second, provided that less than the TTL passes
-- between the two readings of the clock. The table of root servers stays as it is, and the clock has been
-- read twice.
pub answer_negative-remembers :
    (w : World) (look : DnsPacket → Task DnsPacket) (query : DnsPacket) (q : DnsQuestion)
    (result : CacheResult) (response : DnsPacket) (r : Resolver)
    → is_positive result ≡ false
    → w.clock (r.events + 1) < (negative_entry result response (w.clock r.events)).expiration_time
    → (r' : Resolver) × (answer_negative w look query q result response r
        ≡ found (finalize_response response query) r')
      × (find (make_key q.name q.type) r'.cache.cache
          ≡ some (negative_entry result response (w.clock r.events)))
      × (w.clock r.events + second
          ≤ (negative_entry result response (w.clock r.events)).expiration_time)
      × (r'.servers ≡ r.servers)
      × (r'.events ≡ r.events + 2)
unfolding answer_negative cache_result put_result put expired
answer_negative-remembers w look query q result response r negative soon =
    let ttl : ℕ = extract_negative_ttl response in
    let positive_ttl : 0 < ttl = extract_negative_ttl-positive response in
    let given : ltb 0 ttl ≡ true = ground arith in
    let fresh : leb (w.clock r.events + ttl * second) (w.clock (r.events + 1)) ≡ false =
      ground (arith, soon) in
    let entry : DnsCacheEntry = negative_entry result response (w.clock r.events) in
    let key : DnsCacheKey = make_key q.name q.type in
    (
      record r {
        cache = record (r.cache) { cache = assign key entry r.cache.cache };
        events = r.events + 2;
      },
      rw (given, fresh, negative),
      find-assign-same key entry r.cache.cache,
      omega (arith, positive_ttl),
      refl,
      refl,
    )
