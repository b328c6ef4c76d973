-- ===== src/Resolver/Hops.antt =====
-- One hop of an alias: how the loop over hops ends, and what a lookup makes of the answers.
use dns_server_cpp.Cache.Defs.{DnsCache, count_miss, find, get, make_key, put_records}
use dns_server_cpp.Common.{
  List, [], arith, false, is_empty, none, refl, some, true, ℕ, ◌++◌, ◌+◌, ◌==◌, ◌∷◌, ◌≡◌,
}
use dns_server_cpp.Header.Defs.{is_response}
use dns_server_cpp.Packet.Defs.{DnsPacket}
use dns_server_cpp.Question.Defs.{DnsQuestion, QuestionType, cname_type}
use dns_server_cpp.Record.Defs.{DnsRecord}
use dns_server_cpp.Resolver.Defs.{finalize_response}
use dns_server_cpp.Resolver.Lookup.{
  answer_found, chase_alias, cname_target, follow_cname, follow_referrals, has_type, look_name,
  look_packet, look_question, max_referrals,
}
use dns_server_cpp.Resolver.Task.{Resolver, Task, World, ask_roots, cache_get, cache_records, found}
use dns_server_cpp.Roots.Defs.{RootServer}

pub has_type-append :
    (type : QuestionType) (xs ys : List DnsRecord)
    → has_type type ys ≡ true
    → has_type type (xs ++ ys) ≡ true
unfolding has_type
has_type-append type [] ys h = h
has_type-append type (x ∷ xs) ys h = ground (arith, has_type-append type xs ys h)

pub has_type-filled :
    (type : QuestionType) (xs : List DnsRecord) → has_type type xs ≡ true → is_empty xs ≡ false
unfolding has_type
has_type-filled type [] h = cc h
has_type-filled type (x ∷ xs) h = refl

pub cname_target-filled :
    (xs : List DnsRecord) → is_empty (cname_target xs) ≡ false → is_empty xs ≡ false
unfolding cname_target
cname_target-filled [] h = cc h
cname_target-filled (x ∷ xs) h = refl

module _ (w : World) (look : DnsPacket → Task DnsPacket) (q : DnsQuestion)
    (other : (q.type == cname_type) ≡ false) where
  -- Answers of the type that is asked for end the loop over hops.
  pub chase-ends :
      (answers : List DnsRecord) (r : Resolver)
      → has_type q.type answers ≡ true
      → chase_alias w look q answers r ≡ found answers r
  unfolding chase_alias follow_cname
  chase-ends answers r h = rw (other, h)

  -- A hop whose answers have the type that is asked for is the last one.
  pub chase-hop :
      (answers : List DnsRecord) (p : DnsPacket) (r r' : Resolver)
      → has_type q.type answers ≡ false
      → is_empty (cname_target answers) ≡ false
      → look_name w look (cname_target answers) q.type r ≡ found p r'
      → has_type q.type p.answers ≡ true
      → chase_alias w look q answers r ≡ found (answers ++ p.answers) r'
  unfolding chase_alias follow_cname
  chase-hop answers p r r' h t e k = rw (
    other,
    h,
    t,
    e,
    has_type-filled q.type p.answers k,
    has_type-append q.type answers p.answers k,
  )

  -- What a response with answers comes to, once its alias has been followed.
  pub answer_found-chased :
      (query p : DnsPacket) (answers : List DnsRecord) (r r' : Resolver)
      → chase_alias w look q p.answers r ≡ found answers r'
      → (r'' : Resolver) × (answer_found w look query q p r
          ≡ found (finalize_response (record p { answers = answers }) query) r'')
        × (r''.servers ≡ r'.servers)
        × (r''.events ≡ r'.events + 2)
        × (r''.cache
            ≡ put_records
                (make_key q.name q.type)
                answers
                60
                (w.clock r'.events)
                (w.clock (r'.events + 1))
                r'.cache)
  unfolding answer_found cache_records
  answer_found-chased query p answers r r' e = (
    record r' {
      cache =
          put_records (make_key q.name q.type) answers 60 (w.clock r'.events)
            (w.clock (r'.events + 1)) r'.cache;
      events = r'.events + 2;
    },
    rw e refl,
    refl,
    refl,
    refl,
  )

-- A lookup that the cache cannot answer goes on with the root servers' response.
pub look_packet-asked :
    (w : World) (look : DnsPacket → Task DnsPacket) (query p : DnsPacket) (q : DnsQuestion)
    (c : DnsCache) (servers servers' : List RootServer) (event : ℕ)
    → query.question ≡ some q
    → find (make_key q.name q.type) c.cache ≡ none
    → ask_roots w query (record { cache = count_miss c; servers = servers; events = event + 1 })
      ≡ found p (record { cache = count_miss c; servers = servers'; events = event + 1 + 1 })
    → look_packet w look query (record { cache = c; servers = servers; events = event })
      ≡ follow_referrals w look max_referrals query q [] p
          (record { cache = count_miss c; servers = servers'; events = event + 1 + 1 })
unfolding look_packet look_question cache_get get
look_packet-asked w look query p q c servers servers' event e u a = simp (e, u, a)

-- A lookup that the cache cannot answer gets to the answers of the root servers' response.
pub look_packet-fresh :
    (w : World) (look : DnsPacket → Task DnsPacket) (query p : DnsPacket) (q : DnsQuestion)
    (c : DnsCache) (servers servers' : List RootServer) (event : ℕ)
    → query.question ≡ some q
    → find (make_key q.name q.type) c.cache ≡ none
    → ask_roots w query (record { cache = count_miss c; servers = servers; events = event + 1 })
      ≡ found p (record { cache = count_miss c; servers = servers'; events = event + 1 + 1 })
    → is_response p.header ≡ true
    → is_empty p.answers ≡ false
    → look_packet w look query (record { cache = c; servers = servers; events = event })
      ≡ answer_found w look query q p
          (record { cache = count_miss c; servers = servers'; events = event + 1 + 1 })
unfolding look_packet look_question cache_get get follow_referrals
look_packet-fresh w look query p q c servers servers' event e u a t h = simp (e, u, a, t, h)
