-- ===== src/Roots/Locked.antt =====
-- The table of root servers is written only under the mutex.
use dns_server_cpp.Address.Defs.{IpAddress}
use dns_server_cpp.Common.{All, Bool, List, false, inl, inr, refl, some, true, ◌≡◌, ◌⊎◌}
use dns_server_cpp.Config.Loaded.{IsNew}
use dns_server_cpp.Packet.Defs.{DnsPacket}
use dns_server_cpp.Roots.Defs.{RootServer}
use dns_server_cpp.Roots.Interleaved.{IsManager, Reach-IsManager}
use dns_server_cpp.Roots.Mutex.{
  asks_locked, frees_asker, frees_prober, holds_asker, holds_prober, probes_locked,
}
use dns_server_cpp.Roots.Threads.{
  AskStep, Manager, ProbeStep, Reach, Step, Worker, ask, asker, call, check, check_again, choice,
  contact, exchanged, exhausted, inspect, lock_choice, lock_look, lock_loop, lock_mark,
  lock_renewal, mark, no_choice, probe, prober, renewal, request_stop, round_end, start_probing,
  wake,
}

-- What a step does to the table: nothing, unless its own thread holds the mutex and stands in a locked
-- region, and the other one stands in none.
abbrev WritesLocked : Worker → Bool → Bool → Manager → Manager → Type 0
WritesLocked worker own other m n =
    (n.servers ≡ m.servers) ⊎ ((m.holder ≡ some worker) × (own ≡ true) × (other ≡ false))

abbrev pub IsLocked : {m n : Manager} → Step m n → Type 0
IsLocked {m} {n} (ask query st) =
    WritesLocked asker (asks_locked m.asking) (probes_locked m.probing) m n
IsLocked {m} {n} (probe st) =
    WritesLocked prober (probes_locked m.probing) (asks_locked m.asking) m n
IsLocked {m} {n} (request_stop e) = n.servers ≡ m.servers

AskStep-IsLocked :
    {query : DnsPacket} {m n : Manager} {ads : List IpAddress}
    → AskStep query m n
    → IsManager ads m
    → WritesLocked asker (asks_locked m.asking) (probes_locked m.probing) m n
AskStep-IsLocked (call e) v = inl refl
AskStep-IsLocked (exhausted e) v = inl refl
AskStep-IsLocked (lock_choice e f) v = inl refl
AskStep-IsLocked (choice w e p) v = inl refl
AskStep-IsLocked (no_choice w e p) v = inl refl
AskStep-IsLocked (exchanged w e) v = inl refl
AskStep-IsLocked (lock_mark e f) v = inl refl
AskStep-IsLocked {m} (mark e) v =
    let held = rw e at (v.holds) in
    inr (holds_asker m.holder _ held, rw e, frees_asker m.holder _ held)

ProbeStep-IsLocked :
    {m n : Manager} {ads : List IpAddress}
    → ProbeStep m n
    → IsManager ads m
    → WritesLocked prober (probes_locked m.probing) (asks_locked m.asking) m n
ProbeStep-IsLocked (start_probing e f) v = inl refl
ProbeStep-IsLocked (lock_loop e f) v = inl refl
ProbeStep-IsLocked (check e) v = inl refl
ProbeStep-IsLocked (wake e f) v = inl refl
ProbeStep-IsLocked (check_again e) v = inl refl
ProbeStep-IsLocked (lock_look e l f) v = inl refl
ProbeStep-IsLocked (inspect e) v = inl refl
ProbeStep-IsLocked (contact w e) v = inl refl
ProbeStep-IsLocked (lock_renewal e f) v = inl refl
ProbeStep-IsLocked {m} (renewal e) v =
    let held = rw e at (v.holds) in
    inr (holds_prober m.holder _ held, rw e, frees_prober m.holder _ held)
ProbeStep-IsLocked (round_end e l) v = inl refl

-- From a reachable state a step changes the table only if the thread that makes the step holds the
-- mutex, while it stands in a locked region and the other thread in none: the two never write to it
-- together.
pub Reach-IsLocked :
    {servers : List RootServer} {m n : Manager}
    → All IsNew servers
    → Reach servers m
    → (st : Step m n) → IsLocked st
Reach-IsLocked h r (ask query st) = AskStep-IsLocked st (Reach-IsManager h r)
Reach-IsLocked h r (probe st) = ProbeStep-IsLocked st (Reach-IsManager h r)
Reach-IsLocked h r (request_stop e) = refl
