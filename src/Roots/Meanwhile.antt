-- ===== src/Roots/Meanwhile.antt =====
-- What the probing thread does to the table between two locked regions of AskRootServer: rounds of
-- ProbeFailedServers (src/RootServerManager.cxx).
use dns_server_cpp.Common.{All, List, [], arith, get_or, map, refl, ℕ, ◌∙◌, ◌∷◌, ◌≡◌}
use dns_server_cpp.Packet.Defs.{DnsPacket}
use dns_server_cpp.Roots.Ask.{Surroundings, mark_answered}
use dns_server_cpp.Roots.Asked.{KeepsAddresses}
use dns_server_cpp.Roots.Defs.{RootServer, update_srtt}
use dns_server_cpp.Roots.Probe.{ProbeSurroundings, probe_failed_servers}
use dns_server_cpp.Roots.Probed.{
  AllRenewed, IsProbing, Renewed, as_before, probe_failed_servers-AllRenewed, revived,
}

-- The loop of the thread, for as many rounds as it is given; each has its own surroundings. A round that
-- ended by a fault would leave the table to no one.
unfoldable pub probe_rounds : List ProbeSurroundings → List RootServer → List RootServer
probe_rounds [] servers = servers
probe_rounds (p ∷ ps) servers = probe_rounds ps (get_or servers (probe_failed_servers p servers))

-- The surroundings of a call in which the thread makes some rounds before and behind each choice.
abbrev pub with_probes : (ℕ → List ProbeSurroundings) → Surroundings → Surroundings
with_probes rounds w = record w {
  meanwhile = λ attempt servers. probe_rounds (rounds attempt) servers;
}

Renewed-address : {s t : RootServer} → Renewed s t → t.address ≡ s.address
unfolding mark_answered update_srtt
Renewed-address as_before = refl
Renewed-address (revived rtt bad) = ground arith

AllRenewed-addresses :
    (servers servers' : List RootServer)
    → AllRenewed servers servers'
    → map (λ s. s.address) servers' ≡ map (λ s. s.address) servers
AllRenewed-addresses [] [] r = refl
AllRenewed-addresses [] (t ∷ ts) r = absurd r
AllRenewed-addresses (s ∷ ss) [] r = absurd r
AllRenewed-addresses (s ∷ ss) (t ∷ ts) (r, rs) =
    rw (Renewed-address r, AllRenewed-addresses ss ts rs) refl

-- Rounds that no exception leaves leave the addresses as they are.
probe_rounds-addresses :
    (ps : List ProbeSurroundings) (servers : List RootServer)
    → All IsProbing ps
    → map (λ s. s.address) (probe_rounds ps servers) ≡ map (λ s. s.address) servers
unfolding probe_rounds
probe_rounds-addresses [] servers small = refl
probe_rounds-addresses (p ∷ ps) servers (small, smalls) =
    let (servers', e, r) = probe_failed_servers-AllRenewed p small servers in
    rw e (probe_rounds-addresses ps servers' smalls ∙ AllRenewed-addresses servers servers' r)

-- So a call beside which the probing thread runs finds the addresses of its table again.
pub with_probes-KeepsAddresses :
    (rounds : ℕ → List ProbeSurroundings) (w : Surroundings) (query : DnsPacket)
    → ((attempt : ℕ) → All IsProbing (rounds attempt))
    → KeepsAddresses (with_probes rounds w) query
with_probes-KeepsAddresses rounds w query small attempt servers =
    probe_rounds-addresses (rounds attempt) servers (small attempt)
