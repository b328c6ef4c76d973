-- ===== src/Roots/Ask.antt =====
-- `AskRootServer`: up to five attempts, each at a server that was not tried before
-- (src/RootServerManager.cxx). What the program draws and what the network does are parameters.
use dns_server_cpp.Address.Defs.{IpAddress, address_eq}
use dns_server_cpp.Buffer.State.{BytePacketBuffer}
use dns_server_cpp.Common.{
  Bool, List, Option, [], if◌then◌else◌, is_empty, length, none, not, some, suc, zero, ℕ, ◌%◌, ◌&&◌,
  ◌++◌, ◌+◌, ◌-◌, ◌^◌, ◌∷◌,
}
use dns_server_cpp.Net.Exchange.{
  Reply, Verdict, answered, exchange, failed, faulted, make_request, no_verdict, threw,
}
use dns_server_cpp.Net.Sockets.{SocketAddress, from_ip}
use dns_server_cpp.Packet.Defs.{DnsPacket, empty_packet}
use dns_server_cpp.Roots.Defs.{
  RootServer, SelectionCategory, any_of, fail, get_candidates, get_least_srtt, has_status, keep_if,
  numbered, select_category, success, update_srtt,
}

-- The surroundings, for each attempt: the roll for a category, the index drawn below a size, whether a
-- socket opens, what the other thread does to the table before and behind the choice of a server, and
-- what comes of a datagram sent to an address.
pub record Surroundings : Type 0 where
  pub roll : ℕ → ℕ
  pub draw : ℕ → ℕ → ℕ
  pub opens : ℕ → Bool
  pub meanwhile : ℕ → List RootServer → List RootServer
  pub network : ℕ → SocketAddress → BytePacketBuffer → Reply

abbrev pub max_attempts : ℕ
max_attempts = 5

-- `++consecutive_failures` on 32 bits, and the status.
unfoldable pub mark_failed : RootServer → RootServer
mark_failed s = record s {
  status = fail;
  consecutive_failures = (s.consecutive_failures + 1) % 2 ^ 32;
}

unfoldable pub mark_answered : ℕ → RootServer → RootServer
mark_answered rtt_ms s = record (update_srtt rtt_ms s) {
  status = success;
  consecutive_failures = 0;
}

-- The change of the server behind a pointer.
unfoldable pub change_at : ℕ → (RootServer → RootServer) → List RootServer → List RootServer
change_at i f [] = []
change_at zero f (s ∷ servers) = f s ∷ servers
change_at (suc i) f (s ∷ servers) = s ∷ change_at i f servers

-- `std::find` among the tried addresses.
unfoldable pub is_tried : List IpAddress → IpAddress → Bool
is_tried tried a = any_of (λ t. address_eq t a) tried

-- The candidates of the category that were not tried; if there is none, the untried servers that have
-- not failed; if there is none, all untried servers.
unfoldable pub untried_candidates :
    SelectionCategory → ℕ → List IpAddress → List RootServer → List (ℕ × RootServer)
untried_candidates category least tried servers =
    let untried = λ (s : RootServer). not (is_tried tried s.address) in
    let first = keep_if untried (get_candidates category least servers) in
    let second = keep_if (λ s. not (has_status fail s) && untried s) (numbered 0 servers) in
    let third = keep_if untried (numbered 0 servers) in
    if not (is_empty first) then first else if not (is_empty second) then second else third

-- `candidates[i]`.
abbrev pub element : {A : Type 0} → List A → ℕ → Option A
element [] i = none
element (x ∷ xs) zero = some x
element (x ∷ xs) (suc i) = element xs i

-- How a call ended: the addresses it tried, the table, and the packet it returned; the addresses and
-- the table where an exception left it; or a fault of the program itself.
pub data Asked : Type 0 where
  returned : List IpAddress → List RootServer → DnsPacket → Asked
  escaped : List IpAddress → List RootServer → Asked
  crashed : Asked

-- What an attempt does with what came of its exchange: a response or an exception ends the loop,
-- anything else goes on with it.
abbrev pub after_verdict :
    Verdict → ℕ → List IpAddress → List RootServer → (List RootServer → Asked) → Asked
after_verdict no_verdict i tried servers next = next servers
after_verdict failed i tried servers next = next (change_at i mark_failed servers)
after_verdict (answered response rtt) i tried servers next =
    returned tried (change_at i (mark_answered rtt) servers) response
after_verdict threw i tried servers next = escaped tried servers
after_verdict faulted i tried servers next = crashed

module _ (w : Surroundings) (query : DnsPacket) where
  -- The exchange of an attempt with the server it selected.
  unfoldable pub ask_server : ℕ → IpAddress → Verdict
  ask_server attempt address =
      let server = from_ip address 53 in
      if not (w.opens attempt)
      then failed
      else exchange (make_request query) server (w.network attempt server)

  -- The selection of an attempt, on what it picked among the candidates; without candidates the loop
  -- ends. The draw of the code is below the number of candidates.
  abbrev pub after_pick :
      Option (ℕ × RootServer)
      → ℕ
      → List IpAddress
      → List RootServer
      → (List IpAddress → List RootServer → Asked)
      → Asked
  after_pick none attempt tried servers next = returned tried servers empty_packet
  after_pick (some (i, s)) attempt tried servers next =
      let tried' = tried ++ (s.address ∷ []) in
      after_verdict (ask_server attempt s.address) i tried'
        (w.meanwhile (suc (attempt + attempt)) servers) (next tried')

  abbrev pub pick : ℕ → List IpAddress → List RootServer → Option (ℕ × RootServer)
  pick attempt tried servers =
      let category = select_category (w.roll attempt) servers in
      let candidates = untried_candidates category (get_least_srtt servers) tried servers in
      element candidates (w.draw attempt (length candidates))

  -- The loop, on the number of attempts left.
  unfoldable pub ask_rounds : ℕ → List IpAddress → List RootServer → Asked
  ask_rounds zero tried servers = returned tried servers empty_packet
  ask_rounds (suc left) tried servers =
      let next : List IpAddress → List RootServer → Asked = ask_rounds left in
      let attempt = max_attempts - suc left in
      let table = w.meanwhile (attempt + attempt) servers in
      after_pick (pick attempt tried table) attempt tried table next

  unfoldable pub ask_root_server : List RootServer → Asked
  ask_root_server servers = ask_rounds max_attempts [] servers
