-- ===== src/Roots/Nearer.antt =====
-- The bound on the steps that the probing thread has left when it is to stop.
use dns_server_cpp.Address.Defs.{IpAddress}
use dns_server_cpp.Cache.Defs.{size}
use dns_server_cpp.Common.{
  All, Bool, Bool-cases, List, Option, [], ap, arith, false, inl, inr, length, map, none, refl,
  some, subst, suc, sym, true, ℕ, ◌*◌, ◌+◌, ◌-◌, ◌<◌, ◌∙◌, ◌∷◌, ◌≡◌,
}
use dns_server_cpp.Config.Loaded.{IsNew}
use dns_server_cpp.Packet.Defs.{DnsPacket}
use dns_server_cpp.Roots.Ask.{element}
use dns_server_cpp.Roots.Defs.{RootServer, fail, has_status}
use dns_server_cpp.Roots.Interleaved.{IsManager, Reach-IsManager}
use dns_server_cpp.Roots.Probe.{Probed, alive, no_change, stopped}
use dns_server_cpp.Roots.Threads.{
  AskStep, Manager, ProbeStep, Probing, Reach, Step, after_check, after_contact, after_look,
  after_wait, ask, before, begin, call, check, check_again, checking, choice, contact, contacting,
  ended, entering, exchanged, exhausted, inspect, later, lock_choice, lock_look, lock_loop,
  lock_mark, lock_renewal, looking, mark, no_choice, probe, renewal, renewing, request_stop,
  reviving, round_end, start_probing, unborn, waiting, wake, woken,
}

-- The index that a place in the round of probes stands for is one of the table.
abbrev pub Within : ℕ → Probing → Type 0
Within size unborn = Unit
Within size entering = Unit
Within size checking = Unit
Within size waiting = Unit
Within size woken = Unit
Within size ended = Unit
Within size (before i) = Unit
Within size (looking i) = i < size
Within size (contacting i a) = i < size
Within size (reviving i rtt) = i < size
Within size (renewing i rtt) = i < size

-- A bound on the steps that the probing thread has left when it is to stop.
abbrev pub steps_left : ℕ → Probing → ℕ
steps_left size unborn = 3
steps_left size entering = 2
steps_left size checking = 1
steps_left size waiting = 2
steps_left size woken = 1
steps_left size ended = 0
steps_left size (before i) = 5 * (size - i) + 3
steps_left size (looking i) = 5 * (size - i) + 2
steps_left size (contacting i a) = 5 * (size - i) + 1
steps_left size (reviving i rtt) = 5 * (size - i)
steps_left size (renewing i rtt) = 5 * (size - i) - 1

pub after_look-Within :
    (size i : ℕ) (o : Option RootServer)
    → i < size
    → Within size (after_look i o) × (steps_left size (after_look i o) < 5 * (size - i) + 2)
after_look-Within size i none h = (tt, omega arith)
after_look-Within size i (some s) h = elim (Bool-cases (has_status fail s)) [
  | inl t ↦ rw t (h, omega arith)
  | inr f ↦ rw f (tt, omega arith)
]

pub after_contact-Within :
    (size i : ℕ) (r : Probed)
    → i < size
    → Within size (after_contact r i) × (steps_left size (after_contact r i) < 5 * (size - i) + 1)
after_contact-Within size i no_change h = (tt, omega arith)
after_contact-Within size i stopped h = (tt, omega arith)
after_contact-Within size i (alive rtt) h = (h, omega arith)

pub after_check-Within : (size : ℕ) (stop : Bool) → Within size (after_check stop)
after_check-Within size true = tt
after_check-Within size false = tt

pub after_wait-Within : (size : ℕ) (stop : Bool) → Within size (after_wait stop)
after_wait-Within size true = tt
after_wait-Within size false = tt

pub length-map {ℓ κ} :
    {A : Type ℓ} {B : Type κ} (f : A → B) (xs : List A) → length (map f xs) ≡ length xs
length-map f [] = refl
length-map f (x ∷ xs) = ap suc (length-map f xs)

pub AskStep-probing :
    {query : DnsPacket} {m n : Manager}
    → AskStep query m n
    → (n.probing ≡ m.probing) × (n.stop ≡ m.stop)
AskStep-probing (call e) = (refl, refl)
AskStep-probing (exhausted e) = (refl, refl)
AskStep-probing (lock_choice e f) = (refl, refl)
AskStep-probing (choice w e p) = (refl, refl)
AskStep-probing (no_choice w e p) = (refl, refl)
AskStep-probing (exchanged w e) = (refl, refl)
AskStep-probing (lock_mark e f) = (refl, refl)
AskStep-probing (mark e) = (refl, refl)

module _ {size : ℕ} where
  pub ProbeStep-Within :
      {m n : Manager}
      → ProbeStep m n
      → length m.servers ≡ size
      → Within size m.probing
      → Within size n.probing
  ProbeStep-Within (start_probing e f) l v = tt
  ProbeStep-Within (lock_loop e f) l v = tt
  ProbeStep-Within {m} (check e) l v = after_check-Within size m.stop
  ProbeStep-Within (wake e f) l v = tt
  ProbeStep-Within {m} (check_again e) l v = after_wait-Within size m.stop
  ProbeStep-Within (lock_look e h f) l v = omega (arith, h, l)
  ProbeStep-Within {m} (inspect {i} e) l v =
      (after_look-Within size i (element m.servers i) (rw e at v)).0
  ProbeStep-Within (contact {i} w e) l v = (after_contact-Within size i _ (rw e at v)).0
  ProbeStep-Within (lock_renewal e f) l v = rw e at v
  ProbeStep-Within (renewal e) l v = tt
  ProbeStep-Within (round_end e h) l v = tt

  -- With the stop requested a step of the probing thread brings it nearer to its end.
  pub ProbeStep-nearer :
      {m n : Manager}
      → ProbeStep m n
      → length m.servers ≡ size
      → Within size m.probing
      → m.stop ≡ true
      → (n.stop ≡ true) × (steps_left size n.probing < steps_left size m.probing)
  ProbeStep-nearer (start_probing e f) l v s = (s, rw e (omega arith))
  ProbeStep-nearer (lock_loop e f) l v s = (s, rw e (omega arith))
  ProbeStep-nearer (check e) l v s = (s, rw (e, s) (omega arith))
  ProbeStep-nearer (wake e f) l v s = (s, rw e (omega arith))
  ProbeStep-nearer (check_again e) l v s = (s, rw (e, s) (omega arith))
  ProbeStep-nearer (lock_look e h f) l v s = (s, rw e (omega arith))
  ProbeStep-nearer {m} (inspect {i} e) l v s =
      (s, rw e ((after_look-Within size i (element m.servers i) (rw e at v)).1))
  ProbeStep-nearer (contact {i} w e) l v s =
      (s, rw e ((after_contact-Within size i _ (rw e at v)).1))
  ProbeStep-nearer (lock_renewal e f) l v s = (s, rw e (ground (arith, rw e at v)))
  ProbeStep-nearer (renewal e) l v s = (s, rw e (ground (arith, rw e at v)))
  ProbeStep-nearer (round_end e h) l v s = (s, rw e (omega (arith, h, l)))

  pub Step-Within :
      {m n : Manager}
      → Step m n
      → length m.servers ≡ size
      → Within size m.probing
      → Within size n.probing
  Step-Within (ask query st) l v = subst (Within size) (sym (AskStep-probing st).0) v
  Step-Within (probe st) l v = ProbeStep-Within st l v
  Step-Within (request_stop e) l v = v

pub length-servers :
    {ads : List IpAddress} {m : Manager} → IsManager ads m → length m.servers ≡ length ads
length-servers {m} v = sym (length-map (λ s. s.address) m.servers) ∙ ap length v.same

pub Reach-Within :
    {servers : List RootServer} {m : Manager}
    → All IsNew servers
    → Reach servers m
    → Within (length servers) m.probing
Reach-Within h begin = tt
Reach-Within {servers} h (later r st) =
    Step-Within st (length-servers (Reach-IsManager h r) ∙ length-map (λ s. s.address) servers)
      (Reach-Within h r)
