-- ===== src/Roots/Stopping.antt =====
-- The probing thread ends after a stop was requested.
use dns_server_cpp.Cache.Defs.{size}
use dns_server_cpp.Common.{All, List, arith, length, suc, true, ℕ, ◌*◌, ◌+◌, ◌∙◌, ◌≡◌, ◌≤◌}
use dns_server_cpp.Config.Loaded.{IsNew}
use dns_server_cpp.Packet.Defs.{DnsPacket}
use dns_server_cpp.Roots.Defs.{RootServer}
use dns_server_cpp.Roots.Interleaved.{Reach-IsManager}
use dns_server_cpp.Roots.Nearer.{
  AskStep-probing, ProbeStep-nearer, Reach-Within, length-map, length-servers, steps_left,
}
use dns_server_cpp.Roots.Threads.{
  AskStep, Manager, ProbeStep, Probing, Reach, ask, before, checking, contacting, ended, entering,
  later, looking, probe, renewing, reviving, unborn, waiting, woken,
}

-- A run from a state, with the number of steps that the probing thread makes in it.
pub data Going (m : Manager) : ℕ → Manager → Type 0 where
  stays : Going m 0 m
  asks : {k : ℕ} {n p : Manager} (query : DnsPacket) → Going m k n → AskStep query n p → Going m k p
  probes : {k : ℕ} {n p : Manager} → Going m k n → ProbeStep n p → Going m (suc k) p

Going-Reach :
    {servers : List RootServer} {m n : Manager} {k : ℕ}
    → Reach servers m
    → Going m k n
    → Reach servers n
Going-Reach r stays = r
Going-Reach r (asks query g st) = later (Going-Reach r g) (ask query st)
Going-Reach r (probes g st) = later (Going-Reach r g) (probe st)

steps_left-le : (size : ℕ) (p : Probing) → steps_left size p ≤ 5 * size + 3
steps_left-le size unborn = omega arith
steps_left-le size entering = omega arith
steps_left-le size checking = omega arith
steps_left-le size waiting = omega arith
steps_left-le size woken = omega arith
steps_left-le size ended = omega arith
steps_left-le size (before i) = omega arith
steps_left-le size (looking i) = omega arith
steps_left-le size (contacting i a) = omega arith
steps_left-le size (reviving i rtt) = omega arith
steps_left-le size (renewing i rtt) = omega arith

module _ {servers : List RootServer} {m : Manager} (h : All IsNew servers) (r : Reach servers m)
    (s : m.stop ≡ true) where
  Going-nearer :
      {n : Manager} {k : ℕ}
      → Going m k n
      → (n.stop ≡ true)
        × (k + steps_left (length servers) n.probing ≤ steps_left (length servers) m.probing)
  Going-nearer stays = (s, omega arith)
  Going-nearer (asks query g st) =
      let (s', l) = Going-nearer g in let (e, f) = AskStep-probing st in (f ∙ s', rw e l)
  Going-nearer (probes g st) =
      let (s', l) = Going-nearer g in
      let reached = Going-Reach r g in
      let (s'', nearer) =
        ProbeStep-nearer st
          (length-servers (Reach-IsManager h reached) ∙ length-map (λ x. x.address) servers)
          (Reach-Within h reached) s' in
      (s'', omega (arith, l, nearer))

  -- Once the stop was requested, in a state that the threads reach from a table of new servers, the
  -- probing thread makes at most five steps for each server of the table and three more, whatever the
  -- asking thread does between them, and the stop stays requested.
  pub Going-stops :
      {n : Manager} {k : ℕ} → Going m k n → (n.stop ≡ true) × (k ≤ 5 * length servers + 3)
  Going-stops g =
      let (s', l) = Going-nearer g in
      (s', omega (arith, l, steps_left-le (length servers) m.probing))
