-- ===== src/Roots/Interleaved.antt =====
-- What holds however the two threads interleave: the mutex keeps them apart, and the table stays a
-- table of the same servers.
use dns_server_cpp.Address.Defs.{IpAddress}
use dns_server_cpp.Common.{
  All, List, [], false, map, none, refl, some, subst, suc, sym, true, ◌∙◌, ◌∷◌, ◌≡◌,
}
use dns_server_cpp.Config.Loaded.{IsNew}
use dns_server_cpp.Packet.Defs.{DnsPacket}
use dns_server_cpp.Roots.Ask.{element, mark_answered}
use dns_server_cpp.Roots.Asked.{change_at-addresses, mark_answered-address}
use dns_server_cpp.Roots.Consistent.{
  IsConsistent, change_at-IsConsistent, mark_answered-IsConsistent, written-IsConsistent,
  written-addresses,
}
use dns_server_cpp.Roots.Defs.{RootServer}
use dns_server_cpp.Roots.Mutex.{
  HoldsMutex, after_check-unlocked, after_contact-unlocked, after_exchange-unlocked,
  after_look-unlocked, after_wait-unlocked, after_writing-unlocked, asks_locked, frees_asker,
  frees_prober, probes_locked,
}
use dns_server_cpp.Roots.Threads.{
  AskStep, Manager, ProbeStep, Probing, Reach, Step, after_check, after_look, after_wait, ask,
  before, begin, call, check, check_again, choice, contact, exchanged, exhausted, inspect, later,
  lock_choice, lock_look, lock_loop, lock_mark, lock_renewal, mark, no_choice, probe, prober,
  renewal, request_stop, round_end, start_probing, wake,
}

pub record IsManager (ads : List IpAddress) (m : Manager) : Type 0 where
  pub holds : HoldsMutex m.holder (asks_locked m.asking) (probes_locked m.probing)
  pub same : map (λ s. s.address) m.servers ≡ ads
  pub consistent : All IsConsistent m.servers

module _ {ads : List IpAddress} {query : DnsPacket} where
  AskStep-IsManager : {m n : Manager} → AskStep query m n → IsManager ads m → IsManager ads n
  AskStep-IsManager {m} (call e) v = record {
    holds = rw e at (v.holds);
    same = v.same;
    consistent = v.consistent;
  }
  AskStep-IsManager {m} (exhausted e) v = record {
    holds = rw e at (v.holds);
    same = v.same;
    consistent = v.consistent;
  }
  AskStep-IsManager {m} (lock_choice e f) v = record {
    holds = (refl, (rw f at (v.holds)).1);
    same = v.same;
    consistent = v.consistent;
  }
  AskStep-IsManager {m} (choice w e p) v = record {
    holds = (refl, frees_asker m.holder _ (rw e at (v.holds)));
    same = v.same;
    consistent = v.consistent;
  }
  AskStep-IsManager {m} (no_choice w e p) v = record {
    holds = (refl, frees_asker m.holder _ (rw e at (v.holds)));
    same = v.same;
    consistent = v.consistent;
  }
  AskStep-IsManager {m} (exchanged w e) v = record {
    holds = rw (after_exchange-unlocked) (rw e at (v.holds));
    same = v.same;
    consistent = v.consistent;
  }
  AskStep-IsManager {m} (lock_mark e f) v = record {
    holds = (refl, (rw f at (v.holds)).1);
    same = v.same;
    consistent = v.consistent;
  }
  AskStep-IsManager {m} (mark {tried} {left} {i} {v = x} e) v = record {
    holds = (after_writing-unlocked x tried left, frees_asker m.holder _ (rw e at (v.holds)));
    same = written-addresses x i m.servers ∙ v.same;
    consistent = written-IsConsistent x i m.servers v.consistent;
  }

module _ {ads : List IpAddress} where
  -- A step of the probing thread that takes the mutex, and one that gives it back.
  takes :
      {m : Manager}
      → m.holder ≡ none
      → IsManager ads m
      → HoldsMutex (some prober) (asks_locked m.asking) true
  takes f v = ((rw f at (v.holds)).0, refl)

  gives :
      {m : Manager} (p : Probing)
      → probes_locked m.probing ≡ true
      → probes_locked p ≡ false
      → IsManager ads m
      → HoldsMutex none (asks_locked m.asking) (probes_locked p)
  gives {m} p e h v = (frees_prober m.holder _ (rw e at (v.holds)), h)

  ProbeStep-IsManager : {m n : Manager} → ProbeStep m n → IsManager ads m → IsManager ads n
  ProbeStep-IsManager {m} (start_probing e f) v = record {
    holds = rw e at (v.holds);
    same = v.same;
    consistent = v.consistent;
  }
  ProbeStep-IsManager {m} (lock_loop e f) v = record {
    holds = takes f v;
    same = v.same;
    consistent = v.consistent;
  }
  ProbeStep-IsManager {m} (check e) v = record {
    holds = gives (after_check m.stop) (rw e) (after_check-unlocked m.stop) v;
    same = v.same;
    consistent = v.consistent;
  }
  ProbeStep-IsManager {m} (wake e f) v = record {
    holds = takes f v;
    same = v.same;
    consistent = v.consistent;
  }
  ProbeStep-IsManager {m} (check_again e) v = record {
    holds = gives (after_wait m.stop) (rw e) (after_wait-unlocked m.stop) v;
    same = v.same;
    consistent = v.consistent;
  }
  ProbeStep-IsManager {m} (lock_look e l f) v = record {
    holds = takes f v;
    same = v.same;
    consistent = v.consistent;
  }
  ProbeStep-IsManager {m} (inspect {i} e) v = record {
    holds =
        gives (after_look i (element m.servers i)) (rw e)
          (after_look-unlocked i (element m.servers i)) v;
    same = v.same;
    consistent = v.consistent;
  }
  ProbeStep-IsManager {m} (contact {i} w e) v = record {
    holds = rw (after_contact-unlocked) (rw e at (v.holds));
    same = v.same;
    consistent = v.consistent;
  }
  ProbeStep-IsManager {m} (lock_renewal e f) v = record {
    holds = takes f v;
    same = v.same;
    consistent = v.consistent;
  }
  ProbeStep-IsManager {m} (renewal {i} {rtt} e) v = record {
    holds = gives (before (suc i)) (rw e) refl v;
    same = change_at-addresses i (mark_answered rtt) m.servers (mark_answered-address rtt) ∙ v.same;
    consistent =
        change_at-IsConsistent i (mark_answered rtt) m.servers (mark_answered-IsConsistent rtt)
          v.consistent;
  }
  ProbeStep-IsManager {m} (round_end e l) v = record {
    holds = rw e at (v.holds);
    same = v.same;
    consistent = v.consistent;
  }

  Step-IsManager : {m n : Manager} → Step m n → IsManager ads m → IsManager ads n
  Step-IsManager (ask query st) v = AskStep-IsManager st v
  Step-IsManager (probe st) v = ProbeStep-IsManager st v
  Step-IsManager (request_stop e) v = record {
    holds = v.holds;
    same = v.same;
    consistent = v.consistent;
  }

new-IsConsistent : (servers : List RootServer) → All IsNew servers → All IsConsistent servers
new-IsConsistent [] h = tt
new-IsConsistent (s ∷ servers) h =
    (subst IsConsistent (sym h.0) (refl, refl), new-IsConsistent servers h.1)

-- In every state that the two threads reach from a table of new servers, however their steps
-- interleave and whatever they draw and the network answers: a thread is in a locked region exactly if
-- it holds the mutex, the table has the addresses that it was built with, and a server of which
-- nothing is known, or that answered last, has no failures counted, the first also no time.
pub Reach-IsManager :
    {servers : List RootServer} {m : Manager}
    → All IsNew servers
    → Reach servers m
    → IsManager (map (λ s. s.address) servers) m
Reach-IsManager {servers} h begin = record {
  holds = (refl, refl);
  same = refl;
  consistent = new-IsConsistent servers h;
}
Reach-IsManager h (later r st) = Step-IsManager st (Reach-IsManager h r)
