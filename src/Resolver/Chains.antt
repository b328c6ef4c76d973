-- ===== src/Resolver/Chains.antt =====
-- A chain of aliases that ends is followed to its end.
use dns_server_cpp.Cache.Defs.{DnsCache, DnsCacheEntry, DnsCacheKey, count_miss, find, make_key}
use dns_server_cpp.Common.{List, false, is_empty, none, suc, true, ℕ, ◌++◌, ◌+◌, ◌≡◌}
use dns_server_cpp.Header.Defs.{is_response}
use dns_server_cpp.Packet.Defs.{DnsPacket}
use dns_server_cpp.Question.Defs.{QuestionType, make_question}
use dns_server_cpp.Record.Defs.{DnsRecord}
use dns_server_cpp.Resolver.Lookup.{
  chase_alias, cname_target, has_type, look_name, lookup, name_query,
}
use dns_server_cpp.Resolver.Task.{Resolver, World, ask_roots, found}
use dns_server_cpp.Roots.Defs.{RootServer}

module _ (w : World) (type : QuestionType) (IsTable : List RootServer → Type 0)
    (entries : List (DnsCacheKey × DnsCacheEntry)) where
  -- A name that the cache has no entry for.
  abbrev pub Uncached : List ℕ → Type 0
  Uncached n = find (make_key n type) entries ≡ none

  -- Asked for a name, the root servers come back with a response from every table of a kind, and the
  -- table that is left is of the kind again.
  pub record RootsAnswer (n : List ℕ) (p : DnsPacket) : Type 0 where
    pub asked :
        (id_event event : ℕ) (c : DnsCache) (servers : List RootServer)
        → IsTable servers
        → (servers' : List RootServer) × IsTable servers'
          × (ask_roots w
                (name_query (w.query_id id_event) n type none)
                (record { cache = c; servers = servers; events = event })
              ≡ found p (record { cache = c; servers = servers'; events = event + 1 }))
    pub responds : is_response p.header ≡ true
    pub uncached : Uncached n

  -- A chain of aliases from a name, of a number of hops, to records of the type that is asked for; with
  -- all the answers on the way.
  pub data Chain : List ℕ → ℕ → List DnsRecord → Type 0 where
    ends :
        {n : List ℕ} (p : DnsPacket)
        → RootsAnswer n p
        → has_type type p.answers ≡ true
        → Chain n 0 p.answers
    hop :
        {n : List ℕ} {hops : ℕ} {rest : List DnsRecord} (p : DnsPacket)
        → RootsAnswer n p
        → has_type type p.answers ≡ false
        → is_empty (cname_target p.answers) ≡ false
        → Chain (cname_target p.answers) hops rest
        → Chain n (suc hops) (p.answers ++ rest)

  -- What an answered lookup ends with, once its alias has been followed.
  abbrev pub Chased :
      (n : List ℕ) (depth : ℕ) (c : DnsCache) (servers : List RootServer) (event : ℕ)
      (answers : List DnsRecord)
      → Type 0
  Chased n depth c servers event answers =
      (p : DnsPacket) × (r' : Resolver) × (look_name w (lookup w depth) n type
          (record { cache = c; servers = servers; events = event })
        ≡ found p r')
      × (p.answers ≡ answers)
      × IsTable r'.servers

  -- What the loop over the hops comes to, from every table of the kind.
  abbrev IsFollowed :
      (n : List ℕ) (depth : ℕ) (p : DnsPacket) (c : DnsCache) (event : ℕ) (answers : List DnsRecord)
      → Type 0
  IsFollowed n depth p c event answers =
      (servers : List RootServer)
      → IsTable servers
      → (r' : Resolver) × (chase_alias w (lookup w depth) (make_question n type) p.answers
            (record { cache = count_miss c; servers = servers; events = event + 1 + 1 + 1 })
          ≡ found answers r')
        × IsTable r'.servers
