-- ===== src/Resolver/Referrals.antt =====
-- The loop over referrals follows the name servers that a response brings along, until one answers.
use dns_server_cpp.Address.Defs.{IpAddress}
use dns_server_cpp.Common.{
  List, [], ap, arith, false, is_empty, some, suc, true, zero, ℕ, ◌&&◌, ◌++◌, ◌+◌, ◌∙◌, ◌∷◌, ◌≡◌,
}
use dns_server_cpp.Header.Defs.{get_result_code, is_noerror, is_response}
use dns_server_cpp.Packet.Defs.{DnsPacket}
use dns_server_cpp.Question.Defs.{DnsQuestion}
use dns_server_cpp.Resolver.Defs.{query_name_server, query_replied}
use dns_server_cpp.Resolver.Lookup.{
  follow_referrals, glue, is_usable, next_candidates, ns_names, query_candidates,
}
use dns_server_cpp.Resolver.Task.{Resolver, Task, World, found, query_server}
use dns_server_cpp.Roots.Ask.{is_tried}

-- A response that refers to name servers and brings addresses of them along.
pub record IsReferral (p : DnsPacket) : Type 0 where
  pub responds : is_response p.header ≡ true
  pub no_answers : is_empty p.answers ≡ true
  pub no_error : is_noerror (get_result_code p.header) ≡ true
  pub refers : (is_empty p.authorities && is_empty p.additionals) ≡ false
  pub glued : is_empty (glue (ns_names p.authorities) p.additionals []) ≡ false

module _ (w : World) (query : DnsPacket) where
  -- What comes back from a name server, whenever it is asked.
  abbrev pub Replies : IpAddress → DnsPacket → Type 0
  Replies a p =
      (event : ℕ) → query_name_server (w.opens event) (w.network event) query a ≡ query_replied p

  -- The candidates in their order, behind the addresses queried so far: those queried before are passed
  -- by, those without a usable response are left behind, and one has a usable response.
  pub data Finds : List IpAddress → List IpAddress → DnsPacket → List IpAddress → Type 0 where
    passed_by :
        {queried queried' candidates : List IpAddress} {p : DnsPacket} (a : IpAddress)
        → is_tried queried a ≡ true
        → Finds queried candidates p queried'
        → Finds queried (a ∷ candidates) p queried'
    unusable :
        {queried queried' candidates : List IpAddress} {p : DnsPacket} (a : IpAddress)
        (x : DnsPacket)
        → is_tried queried a ≡ false
        → Replies a x
        → is_usable x ≡ false
        → Finds (queried ++ (a ∷ [])) candidates p queried'
        → Finds queried (a ∷ candidates) p queried'
    usable :
        {queried candidates : List IpAddress} {p : DnsPacket} (a : IpAddress)
        → is_tried queried a ≡ false
        → Replies a p
        → is_usable p ≡ true
        → Finds queried (a ∷ candidates) p (queried ++ (a ∷ []))

  -- A response that leads to another over a number of referrals, with the addresses queried before and
  -- after.
  pub data Leads : List IpAddress → DnsPacket → ℕ → List IpAddress → DnsPacket → Type 0 where
    arrived : {queried : List IpAddress} {p : DnsPacket} → Leads queried p 0 queried p
    referred :
        {queried queried' queried'' : List IpAddress} {p p' last : DnsPacket} {n : ℕ}
        → IsReferral p
        → Finds queried (glue (ns_names p.authorities) p.additionals []) p' queried'
        → Leads queried' p' n queried'' last
        → Leads queried p (suc n) queried'' last

module _ {w : World} (look : DnsPacket → Task DnsPacket) {query : DnsPacket} where
  query_candidates-Finds :
      {queried queried' candidates : List IpAddress} {p : DnsPacket}
      → Finds w query queried candidates p queried'
      → (r : Resolver)
      → (event : ℕ) × (query_candidates w look query candidates queried r
          ≡ found (some p, queried') (record r { events = event }))
  unfolding query_candidates query_server
  query_candidates-Finds (passed_by a t f) r =
      let (event, e) = query_candidates-Finds f r in (event, rw t e)
  query_candidates-Finds (unusable a x t g u f) r =
      let (event, e) = query_candidates-Finds f (record r { events = r.events + 1 }) in
      (event, rw (t, g r.events, u) e)
  query_candidates-Finds (usable a t g u) r = (r.events + 1, rw (t, g r.events, u))

  -- One round of the loop.
  follow_referrals-referred :
      {queried queried' : List IpAddress} {p p' : DnsPacket}
      → IsReferral p
      → Finds w query queried (glue (ns_names p.authorities) p.additionals []) p' queried'
      → (q : DnsQuestion) (left : ℕ) (r : Resolver)
      → (event : ℕ) × (follow_referrals w look (suc left) query q queried p r
          ≡ follow_referrals w look left query q queried' p' (record r { events = event }))
  unfolding follow_referrals next_candidates
  follow_referrals-referred i f q left r =
      let (event, e) = query_candidates-Finds f r in
      (event, rw (i.responds, i.no_answers, i.no_error, i.refers, i.glued, i.glued, e))

  -- Where a response leads to another over fewer referrals than are left, the loop goes on with the
  -- other and the referrals that are left then.
  pub follow_referrals-Leads :
      {queried queried' : List IpAddress} {p last : DnsPacket} {n : ℕ}
      → Leads w query queried p n queried' last
      → (q : DnsQuestion) (left total : ℕ) (r : Resolver) → n + left ≡ total
      → (event : ℕ) × (follow_referrals w look total query q queried p r
          ≡ follow_referrals w look left query q queried' last (record r { events = event }))
  follow_referrals-Leads {queried} {p} arrived q left total r e =
      (r.events, ap (λ (t : ℕ). follow_referrals w look t query q queried p r) (omega (arith, e)))
  follow_referrals-Leads (referred i f l) q left zero r e = absurd (omega (arith, e))
  follow_referrals-Leads (referred i f l) q left (suc total) r e =
      let (event, first) = follow_referrals-referred i f q total r in
      let (event', rest) =
        follow_referrals-Leads l q left total (record r { events = event }) (omega (arith, e)) in
      (event', first ∙ rest)
