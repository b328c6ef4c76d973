-- ===== src/Resolver/Answered.antt =====
-- What a lookup guarantees, whatever the network answers: no fault, a cache with its invariant, and a
-- reply to the query.
use dns_server_cpp.Address.Defs.{IpAddress}
use dns_server_cpp.Cache.Defs.{CacheResult, DnsCacheKey, find, get, put_records, put_result}
use dns_server_cpp.Cache.Runs.{IsCache, get_found-IsCache, put-IsCache}
use dns_server_cpp.Common.{
  Bool, Bool-cases, List, [], false, if◌then◌else◌, inl, inr, refl, true, ℕ, ◌+◌, ◌∷◌, ◌≡◌, ◌≢◌,
  ◌⊎◌,
}
use dns_server_cpp.Header.Defs.{is_response}
use dns_server_cpp.Net.Exchange.{
  Verdict, answered, failed, faulted, make_request, no_verdict, threw,
}
use dns_server_cpp.Net.Replies.{exchange-faultless}
use dns_server_cpp.Net.Sockets.{from_ip}
use dns_server_cpp.Packet.Defs.{DnsPacket}
use dns_server_cpp.Record.Defs.{DnsRecord}
use dns_server_cpp.Resolver.Defs.{finalize_response, query_name_server, verdict_packet}
use dns_server_cpp.Resolver.Final.{RepliesTo, finalize_response-RepliesTo}
use dns_server_cpp.Resolver.Task.{
  Looked, Resolver, Task, World, ask_roots, asked_packet, cache_get, cache_records, cache_result,
  continue_with, fault, found, give, next_event, queried_packet, query_server, thrown, too_deep,
  ◌>>=◌,
}
use dns_server_cpp.Roots.Ask.{Asked, Surroundings, crashed, escaped, returned}
use dns_server_cpp.Roots.Asked.{IsAsked, KeepsAddresses, ask_root_server-IsAsked}

-- What holds when a task ends: `Q` of its value, and the invariant of the cache, which it keeps where an
-- exception leaves it too. A fault is excluded; of a task that the fuel cuts off nothing is said.
abbrev pub Ends : {A : Type 0} → (A → Type 0) → Looked A → Type 0
Ends Q (found a r) = Q a × IsCache r.cache
Ends Q (thrown r) = IsCache r.cache
Ends Q fault = ⊥
Ends Q too_deep = Unit

pub record IsSound {A : Type 0} (Q : A → Type 0) (m : Task A) : Type 0 where
  pub run : (r : Resolver) → IsCache r.cache → Ends Q (m r)

abbrev pub Anything : {A : Type 0} → A → Type 0
Anything _ = Unit

module _ {A B : Type 0} {Q : A → Type 0} {R : B → Type 0} where
  pub Ends-bind :
      (o : Looked A) (f : A → Task B)
      → Ends Q o
      → ((a : A) → Q a → IsSound R (f a))
      → Ends R (continue_with o f)
  Ends-bind (found a r) f h k = (k a h.0).run r h.1
  Ends-bind (thrown r) f h k = h
  Ends-bind fault f h k = elim h [ ]
  Ends-bind too_deep f h k = tt

  pub bind-IsSound :
      {m : Task A} {f : A → Task B}
      → IsSound Q m
      → ((a : A) → Q a → IsSound R (f a))
      → IsSound R (m >>= f)
  bind-IsSound {m} {f} s k = record { run = λ r v. Ends-bind (m r) f (s.run r v) k }

module _ {A : Type 0} {Q : A → Type 0} where
  pub give-IsSound : (a : A) → Q a → IsSound Q (give a)
  give-IsSound a q = record { run = λ r v. (q, v) }

  pub if-IsSound :
      (c : Bool) {m k : Task A}
      → (c ≡ true → IsSound Q m)
      → (c ≡ false → IsSound Q k)
      → IsSound Q (if c then m else k)
  if-IsSound true s t = s refl
  if-IsSound false s t = t refl

pub next_event-IsSound : IsSound Anything next_event
next_event-IsSound = record { run = λ r v. (tt, v) }

-- A packet that a lookup may return for a query: no response at all, or a reply to it.
abbrev pub IsReply : DnsPacket → DnsPacket → Type 0
IsReply query p = (is_response p.header ≡ false) ⊎ RepliesTo query p

pub finalize_response-IsReply :
    (response query : DnsPacket) → IsReply query (finalize_response response query)
unfolding finalize_response
finalize_response-IsReply response query = elim (Bool-cases (is_response response.header)) [
  | inl t ↦ inr (finalize_response-RepliesTo response query t).0
  | inr f ↦ inl (rw f f)
]

module _ (w : World) where
  pub cache_get-IsSound : (key : DnsCacheKey) → IsSound Anything (cache_get w key)
  unfolding cache_get get
  cache_get-IsSound key = record {
    run = λ r v. (tt, get_found-IsCache key (w.clock r.events) r.cache (find key r.cache.cache) v);
  }

  pub cache_records-IsSound :
      (key : DnsCacheKey) (rs : List DnsRecord) → IsSound Anything (cache_records w key rs)
  unfolding cache_records put_records
  cache_records-IsSound key [] = record { run = λ r v. (tt, v) }
  cache_records-IsSound key (x ∷ rs) = record {
    run = λ r v. (tt, put-IsCache key _ (w.clock (r.events + 1)) r.cache v);
  }

  pub cache_result-IsSound :
      (key : DnsCacheKey) (result : CacheResult) (ttl : ℕ)
      → IsSound Anything (cache_result w key result ttl)
  unfolding cache_result put_result
  cache_result-IsSound key result ttl = record {
    run = λ r v. (tt, put-IsCache key _ (w.clock (r.events + 1)) r.cache v);
  }

  asked_packet-Ends :
      (roots : Surroundings) (query : DnsPacket) (ads : List IpAddress) (r : Resolver) (a : Asked)
      → IsAsked roots query ads a
      → IsCache r.cache
      → Ends Anything (asked_packet w r a)
  asked_packet-Ends roots query ads r (returned tried servers p) h v = (tt, v)
  asked_packet-Ends roots query ads r (escaped tried servers) h v = v
  asked_packet-Ends roots query ads r crashed h v = elim h [ ]

  -- The surroundings of every call of the root servers' manager keep the addresses of its table.
  abbrev pub KeepsRoots : Type 0
  KeepsRoots = (n : ℕ) (query : DnsPacket) → KeepsAddresses (w.roots n) query

  pub ask_roots-IsSound : KeepsRoots → (query : DnsPacket) → IsSound Anything (ask_roots w query)
  unfolding ask_roots
  ask_roots-IsSound keeps query = record {
    run = λ r v.
        asked_packet-Ends (w.roots r.events) query _ (record r { events = r.events + 1 }) _
          (ask_root_server-IsAsked (w.roots r.events) query r.servers (keeps r.events query)) v;
  }

  pub query_server-IsSound :
      (query : DnsPacket) (a : IpAddress) → IsSound Anything (query_server w query a)
  unfolding query_server query_name_server
  query_server-IsSound query a = record {
    run = λ r v. go _ (exchange-faultless (make_request query) (from_ip a 53) _) r v;
  }
    where
      go :
          (o : Verdict)
          → o ≢ faulted
          → (r : Resolver) → IsCache r.cache
          → Ends Anything (queried_packet w (verdict_packet o) (record r { events = r.events + 1 }))
      go no_verdict n r v = (tt, v)
      go failed n r v = (tt, v)
      go (answered p rtt) n r v = (tt, v)
      go threw n r v = v
      go faulted n r v = absurd (n refl)
