-- ===== src/Roots/Asked.antt =====
-- What a call of `AskRootServer` guarantees, whatever the network answers.
use dns_server_cpp.Address.Defs.{IpAddress, address_eq}
use dns_server_cpp.Buffer.State.{BytePacketBuffer}
use dns_server_cpp.Common.{
  All, All-append, Bool-cases, List, Option, [], ap, arith, false, inl, inr, length, length-append,
  map, none, refl, some, subst, suc, zero, ℕ, ◌++◌, ◌+◌, ◌-◌, ◌∙◌, ◌∷◌, ◌≡◌, ◌≢◌, ◌≤◌, ◌⊎◌,
}
use dns_server_cpp.Net.Exchange.{
  Verdict, answered, failed, faulted, make_request, no_verdict, threw,
}
use dns_server_cpp.Net.Oversized.{IsOversized, exchange-threw}
use dns_server_cpp.Net.Replies.{Answers, exchange-answered, exchange-faultless}
use dns_server_cpp.Net.Sockets.{SocketAddress, from_ip}
use dns_server_cpp.Packet.Defs.{DnsPacket, empty_packet}
use dns_server_cpp.Roots.Ask.{
  Asked, Surroundings, after_pick, after_verdict, ask_root_server, ask_rounds, ask_server,
  change_at, crashed, escaped, is_tried, mark_answered, mark_failed, max_attempts, pick, returned,
}
use dns_server_cpp.Roots.Choice.{untried_candidates-untried}
use dns_server_cpp.Roots.Defs.{RootServer, any_of, update_srtt}

-- No address stands twice.
abbrev pub IsDistinct : List IpAddress → Type 0
IsDistinct [] = Unit
IsDistinct (a ∷ ads) = All (λ b. address_eq a b ≡ false) ads × IsDistinct ads

pub IsDistinct-snoc :
    (ads : List IpAddress) (a : IpAddress)
    → IsDistinct ads
    → is_tried ads a ≡ false
    → IsDistinct (ads ++ (a ∷ []))
unfolding is_tried
IsDistinct-snoc [] a d h = (tt, tt)
IsDistinct-snoc (b ∷ ads) a d h =
    let apart : (address_eq b a ≡ false) × (any_of (λ t. address_eq t a) ads ≡ false) =
      ground (arith, h) in
    (
      All-append (λ x. address_eq b x ≡ false) ads (a ∷ []) d.0 (apart.0, tt),
      IsDistinct-snoc ads a d.1 apart.1,
    )

pub change_at-addresses :
    (i : ℕ) (f : RootServer → RootServer) (servers : List RootServer)
    → ((s : RootServer) → (f s).address ≡ s.address)
    → map (λ s. s.address) (change_at i f servers) ≡ map (λ s. s.address) servers
unfolding change_at
change_at-addresses i f [] h = refl
change_at-addresses zero f (s ∷ servers) h = rw (h s)
change_at-addresses (suc i) f (s ∷ servers) h =
    ap (λ ads. s.address ∷ ads) (change_at-addresses i f servers h)

pub mark_answered-address : (rtt : ℕ) (s : RootServer) → (mark_answered rtt s).address ≡ s.address
unfolding mark_answered update_srtt
mark_answered-address rtt s = ground arith

module _ (w : Surroundings) (query : DnsPacket) where
  -- The network may give a reply with a length of the address that does not fit its storage.
  abbrev pub GetsOversized : Type 0
  GetsOversized =
      (attempt : ℕ) × (server : SocketAddress) × (b : BytePacketBuffer) × IsOversized
        (w.network attempt server b)

  -- What holds of a call that ended: it tried no address twice and at most five, the table has its
  -- addresses still, and the packet is a default one or answers the request. Where an exception left it, a
  -- reply came with a length of the address that does not fit its storage.
  abbrev pub IsAsked : List IpAddress → Asked → Type 0
  IsAsked ads (returned tried servers p) =
      IsDistinct tried
      × (length tried ≤ max_attempts)
      × (map (λ s. s.address) servers ≡ ads)
      × ((p ≡ empty_packet) ⊎ Answers (make_request query) p)
  IsAsked ads (escaped tried servers) =
      IsDistinct tried
      × (length tried ≤ max_attempts)
      × (map (λ s. s.address) servers ≡ ads)
      × GetsOversized
  IsAsked ads crashed = ⊥

  -- The other thread leaves the addresses of the table alone.
  abbrev pub KeepsAddresses : Type 0
  KeepsAddresses =
      (attempt : ℕ) (servers : List RootServer)
      → map (λ s. s.address) (w.meanwhile attempt servers) ≡ map (λ s. s.address) servers

  ask_server-faultless : (attempt : ℕ) (a : IpAddress) → ask_server w query attempt a ≢ faulted
  unfolding ask_server
  ask_server-faultless attempt a e = elim (Bool-cases (w.opens attempt)) [
    | inl t ↦ exchange-faultless _ _ _ (simp t at e)
    | inr f ↦ cc (simp f at e)
  ]

  ask_server-answered :
      (attempt : ℕ) (a : IpAddress) (p : DnsPacket) (rtt : ℕ)
      → ask_server w query attempt a ≡ answered p rtt
      → Answers (make_request query) p
  unfolding ask_server
  ask_server-answered attempt a p rtt e = elim (Bool-cases (w.opens attempt)) [
    | inl t ↦ (exchange-answered _ _ _ _ _ (simp t at e)).0
    | inr f ↦ cc (simp f at e)
  ]

  ask_server-threw :
      (attempt : ℕ) (a : IpAddress) → ask_server w query attempt a ≡ threw → GetsOversized
  unfolding ask_server
  ask_server-threw attempt a e = elim (Bool-cases (w.opens attempt)) [
    | inl t ↦
        let (b, large) =
          exchange-threw (make_request query) (from_ip a 53) (w.network attempt (from_ip a 53))
            (simp t at e) in
        (attempt, from_ip a 53, b, large)
    | inr f ↦ cc (simp f at e)
  ]

  after_verdict-IsAsked :
      (v : Verdict) (i : ℕ) (ads tried : List IpAddress) (servers : List RootServer)
      (next : List RootServer → Asked)
      → v ≢ faulted
      → ((p : DnsPacket) (rtt : ℕ) → v ≡ answered p rtt → Answers (make_request query) p)
      → (v ≡ threw → GetsOversized)
      → IsDistinct tried
      → length tried ≤ max_attempts
      → map (λ s. s.address) servers ≡ ads
      → ((servers' : List RootServer)
          → map (λ s. s.address) servers' ≡ ads
          → IsAsked ads (next servers'))
      → IsAsked ads (after_verdict v i tried servers next)
  after_verdict-IsAsked no_verdict i ads tried servers next nf ans large d l m k = k servers m
  after_verdict-IsAsked failed i ads tried servers next nf ans large d l m k =
      k (change_at i mark_failed servers)
        (change_at-addresses i mark_failed servers (λ s. unfold mark_failed in refl) ∙ m)
  after_verdict-IsAsked (answered p rtt) i ads tried servers next nf ans large d l m k = (
    d,
    l,
    change_at-addresses i (mark_answered rtt) servers (mark_answered-address rtt) ∙ m,
    inr (ans p rtt refl),
  )
  after_verdict-IsAsked threw i ads tried servers next nf ans large d l m k = (d, l, m, large refl)
  after_verdict-IsAsked faulted i ads tried servers next nf ans large d l m k = absurd (nf refl)

  -- An attempt on what it picked, the attempts after it being `left` many.
  after_pick-IsAsked :
      (o : Option (ℕ × RootServer)) (attempt left : ℕ) (tried : List IpAddress)
      (servers : List RootServer)
      → ((i : ℕ) (s : RootServer) → o ≡ some (i, s) → is_tried tried s.address ≡ false)
      → KeepsAddresses
      → IsDistinct tried
      → length tried + suc left ≤ max_attempts
      → ((tried' : List IpAddress) (servers' : List RootServer)
          → IsDistinct tried'
          → length tried' + left ≤ max_attempts
          → IsAsked (map (λ s. s.address) servers') (ask_rounds w query left tried' servers'))
      → IsAsked
          (map (λ s. s.address) servers)
          (after_pick w query o attempt tried servers (ask_rounds w query left))
  after_pick-IsAsked none attempt left tried servers new keeps d l k =
      (d, omega (arith, l), refl, inl refl)
  after_pick-IsAsked (some (i, s)) attempt left tried servers new keeps d l k =
      let tried' : List IpAddress = tried ++ (s.address ∷ []) in
      let d' : IsDistinct tried' = IsDistinct-snoc tried s.address d (new i s refl) in
      let l' : length tried' + left ≤ max_attempts =
        omega (arith, l, length-append tried (s.address ∷ [])) in
      after_verdict-IsAsked (ask_server w query attempt s.address) i _ tried'
        (w.meanwhile (suc (attempt + attempt)) servers) (ask_rounds w query left tried')
        (ask_server-faultless attempt s.address) (ask_server-answered attempt s.address)
        (ask_server-threw attempt s.address) d' (omega (arith, l'))
        (keeps (suc (attempt + attempt)) servers)
        (λ servers' m.
          subst (λ ads. IsAsked ads (ask_rounds w query left tried' servers')) m
            (k tried' servers' d' l'))

  ask_rounds-IsAsked :
      (left : ℕ) (tried : List IpAddress) (servers : List RootServer)
      → KeepsAddresses
      → IsDistinct tried
      → length tried + left ≤ max_attempts
      → IsAsked (map (λ s. s.address) servers) (ask_rounds w query left tried servers)
  unfolding ask_rounds
  ask_rounds-IsAsked zero tried servers keeps d l = (d, omega (arith, l), refl, inl refl)
  ask_rounds-IsAsked (suc left) tried servers keeps d l =
      let attempt : ℕ = max_attempts - suc left in
      let table : List RootServer = w.meanwhile (attempt + attempt) servers in
      subst (λ ads. IsAsked ads (ask_rounds w query (suc left) tried servers))
        (keeps (attempt + attempt) servers)
        (after_pick-IsAsked (pick w query attempt tried table) attempt left tried table
          (λ i s. untried_candidates-untried _ _ tried table _ i s) keeps d l
          (λ tried' servers'. ask_rounds-IsAsked left tried' servers' keeps))

  -- A call of `AskRootServer` always ends, without a fault: it returns, or an exception leaves it, and
  -- then the network gives a reply with a length of the address that does not fit its storage. Either
  -- way it asks no address twice and at most five and keeps the addresses of the table. It returns a
  -- default packet or a response with the ID of the query whose every field is in range. It is asked
  -- that the other thread keeps the addresses of the table.
  pub ask_root_server-IsAsked :
      (servers : List RootServer)
      → KeepsAddresses
      → IsAsked (map (λ s. s.address) servers) (ask_root_server w query servers)
  unfolding ask_root_server
  ask_root_server-IsAsked servers keeps =
      ask_rounds-IsAsked max_attempts [] servers keeps tt (omega arith)
