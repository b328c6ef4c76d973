-- ===== src/Resolver/Candidates.antt =====
-- The addresses that a referral leads to: no address is asked twice.
use mathlib.Core.List.{Mem, mem-cons_self, mem-cons_of_mem}
use dns_server_cpp.Address.Defs.{IpAddress}
use dns_server_cpp.Common.{
  All, All-append, Bool-cases, List, Option, [], inl, inr, none, refl, some, true, ℕ, ◌++◌, ◌∷◌,
  ◌≡◌,
}
use dns_server_cpp.Packet.Defs.{DnsPacket}
use dns_server_cpp.Record.Defs.{DnsRecord, get_ip_address}
use dns_server_cpp.Resolver.Answered.{
  IsSound, bind-IsSound, give-IsSound, if-IsSound, query_server-IsSound,
}
use dns_server_cpp.Resolver.Defs.{equals_ignore_case}
use dns_server_cpp.Resolver.Lookup.{add_candidate, add_glue, glue, is_usable, query_candidates}
use dns_server_cpp.Resolver.Task.{Task, World}
use dns_server_cpp.Roots.Ask.{is_tried}
use dns_server_cpp.Roots.Asked.{IsDistinct, IsDistinct-snoc}

add_candidate-IsDistinct :
    (candidates : List IpAddress) (ip : Option IpAddress)
    → IsDistinct candidates
    → IsDistinct (add_candidate candidates ip)
unfolding add_candidate
add_candidate-IsDistinct candidates none d = d
add_candidate-IsDistinct candidates (some ip) d = elim (Bool-cases (is_tried candidates ip)) [
  | inl t ↦ rw t d
  | inr f ↦ rw f (IsDistinct-snoc candidates ip d f)
]

add_glue-IsDistinct :
    (name : List ℕ) (rs : List DnsRecord) (candidates : List IpAddress)
    → IsDistinct candidates
    → IsDistinct (add_glue name rs candidates)
unfolding add_glue
add_glue-IsDistinct name [] candidates d = d
add_glue-IsDistinct name (r ∷ rs) candidates d =
    elim (Bool-cases (equals_ignore_case r.name name)) [
      | inl t ↦
          rw t (
            add_glue-IsDistinct name rs _
              (add_candidate-IsDistinct candidates (get_ip_address r) d))
      | inr f ↦ rw f (add_glue-IsDistinct name rs candidates d)
    ]

-- The addresses that a referral brings along, added to distinct ones, leave no address twice.
pub glue-IsDistinct :
    (names : List (List ℕ)) (additionals : List DnsRecord) (candidates : List IpAddress)
    → IsDistinct candidates
    → IsDistinct (glue names additionals candidates)
unfolding glue
glue-IsDistinct [] additionals candidates d = d
glue-IsDistinct (name ∷ names) additionals candidates d =
    glue-IsDistinct names additionals _ (add_glue-IsDistinct name additionals candidates d)

-- The address of one of the records, whose name is one of the names but for case.
abbrev pub IsBrought : List (List ℕ) → List DnsRecord → IpAddress → Type 0
IsBrought names rs a =
    (name : List ℕ) × (r : DnsRecord) × Mem name names
    × Mem r rs
    × (equals_ignore_case r.name name ≡ true)
    × (get_ip_address r ≡ some a)

module _ (P : IpAddress → Type 0) where
  add_candidate-All :
      (candidates : List IpAddress) (ip : Option IpAddress)
      → All P candidates
      → ((a : IpAddress) → ip ≡ some a → P a)
      → All P (add_candidate candidates ip)
  unfolding add_candidate
  add_candidate-All candidates none h k = h
  add_candidate-All candidates (some a) h k = elim (Bool-cases (is_tried candidates a)) [
    | inl t ↦ rw t h
    | inr f ↦ rw f (All-append P candidates (a ∷ []) h (k a refl, tt))
  ]

  add_glue-All :
      (name : List ℕ) (rs : List DnsRecord) (candidates : List IpAddress)
      → All P candidates
      → ((r : DnsRecord) (a : IpAddress)
          → Mem r rs
          → equals_ignore_case r.name name ≡ true
          → get_ip_address r ≡ some a
          → P a)
      → All P (add_glue name rs candidates)
  unfolding add_glue
  add_glue-All name [] candidates h k = h
  add_glue-All name (r ∷ rs) candidates h k =
      let rest = λ (x : DnsRecord) (a : IpAddress) (m : Mem x rs). k x a (mem-cons_of_mem r m) in
      elim (Bool-cases (equals_ignore_case r.name name)) [
        | inl t ↦ rw t (
            add_glue-All name rs _
              (add_candidate-All candidates (get_ip_address r) h (λ a. k r a mem-cons_self t)) rest)
        | inr f ↦ rw f (add_glue-All name rs candidates h rest)
      ]

  glue-All :
      (names : List (List ℕ)) (rs : List DnsRecord) (candidates : List IpAddress)
      → All P candidates
      → ((name : List ℕ) (r : DnsRecord) (a : IpAddress)
          → Mem name names
          → Mem r rs
          → equals_ignore_case r.name name ≡ true
          → get_ip_address r ≡ some a
          → P a)
      → All P (glue names rs candidates)
  unfolding glue
  glue-All [] rs candidates h k = h
  glue-All (name ∷ names) rs candidates h k =
      glue-All names rs _ (add_glue-All name rs candidates h (λ r a. k name r a mem-cons_self))
        (λ n r a m. k n r a (mem-cons_of_mem name m))

-- Every address that is taken from the additional records of a referral is the address of a record whose
-- name is, but for case, one that an NS record names: whatever else the records hold is left alone.
pub glue-AreBrought :
    (names : List (List ℕ)) (rs : List DnsRecord) → All (IsBrought names rs) (glue names rs [])
glue-AreBrought names rs =
    glue-All (IsBrought names rs) names rs [] tt (λ name r a m n e f. (name, r, m, n, e, f))

-- Where the addresses queried so far are distinct they stay so: a candidate that was queried before
-- is passed by.
pub query_candidates-IsDistinct :
    (w : World) (look : DnsPacket → Task DnsPacket) (query : DnsPacket)
    (candidates queried : List IpAddress)
    → IsDistinct queried
    → IsSound (λ o. IsDistinct o.1) (query_candidates w look query candidates queried)
unfolding query_candidates
query_candidates-IsDistinct w look query [] queried d = give-IsSound (none, queried) d
query_candidates-IsDistinct w look query (a ∷ candidates) queried d =
    if-IsSound (is_tried queried a)
      (λ _. query_candidates-IsDistinct w look query candidates queried d)
      (λ f.
        let d' : IsDistinct (queried ++ (a ∷ [])) = IsDistinct-snoc queried a d f in
        bind-IsSound (query_server-IsSound w query a) λ p _.
          if-IsSound (is_usable p) (λ _. give-IsSound (some p, queried ++ (a ∷ [])) d')
            (λ _. query_candidates-IsDistinct w look query candidates (queried ++ (a ∷ [])) d'))
