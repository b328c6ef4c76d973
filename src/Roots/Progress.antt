-- ===== src/Roots/Progress.antt =====
-- Neither thread of the root servers' manager waits for ever.
use native.Mathlib.Decide.{dec_lt}
use dns_server_cpp.Address.Defs.{IpAddress}
use dns_server_cpp.Common.{
  All, List, Option, Option-cases, arith, false, inl, inr, length, none, refl, some, suc, true, ℕ,
  ◌-◌, ◌≡◌, ◌⊎◌,
}
use dns_server_cpp.Config.Loaded.{IsNew}
use dns_server_cpp.Net.Exchange.{no_answer}
use dns_server_cpp.Packet.Defs.{DnsPacket}
use dns_server_cpp.Roots.Ask.{Surroundings, max_attempts, pick}
use dns_server_cpp.Roots.Defs.{RootServer}
use dns_server_cpp.Roots.Interleaved.{Reach-IsManager}
use dns_server_cpp.Roots.Mutex.{HoldsMutex, asks_locked, probes_locked}
use dns_server_cpp.Roots.Probe.{ProbeSurroundings}
use dns_server_cpp.Roots.Threads.{
  AskStep, Asking, Manager, ProbeStep, Probing, Reach, Worker, asker, before, between, check,
  check_again, checking, choice, choosing, contact, contacting, ended, entering, exchanging,
  inspect, lock_look, lock_loop, lock_renewal, looking, mark, marking, no_choice, outside, prober,
  renewal, renewing, reviving, round_end, start_probing, unborn, waiting, wake, woken, writing,
}

-- Surroundings that draw and answer nothing, for a step that any surroundings allow.
abbrev still : Surroundings
still = record {
  roll = λ _. 1;
  draw = λ _ _. 0;
  opens = λ _. false;
  meanwhile = λ _ servers. servers;
  network = λ _ _ _. no_answer;
}

abbrev probe_still : ProbeSurroundings
probe_still = record { id = λ _. 0; opens = λ _. false; network = λ _ _ _. no_answer }

-- The thread that holds the mutex has a step.
abbrev pub CanAsk : DnsPacket → Manager → Type 0
CanAsk query m = (n : Manager) × AskStep query m n

abbrev pub CanProbe : Manager → Type 0
CanProbe m = (n : Manager) × ProbeStep m n

choosing_goes_on :
    (query : DnsPacket) (m : Manager) (tried : List IpAddress) (left : ℕ)
    → m.asking ≡ choosing tried left
    → CanAsk query m
choosing_goes_on query m tried left e =
    elim (Option-cases (pick still query (max_attempts - suc left) tried m.servers)) [
      | inl p ↦ (_, no_choice still e p)
      | inr ((i, s), p) ↦ (_, choice still e p)
    ]

asker_goes_on :
    (query : DnsPacket) (m : Manager) (a : Asking)
    → m.asking ≡ a
    → asks_locked a ≡ true
    → CanAsk query m
asker_goes_on query m outside e h = cc h
asker_goes_on query m (between tried left) e h = cc h
asker_goes_on query m (choosing tried left) e h = choosing_goes_on query m tried left e
asker_goes_on query m (exchanging tried left i a) e h = cc h
asker_goes_on query m (marking tried left i v) e h = cc h
asker_goes_on query m (writing tried left i v) e h = (_, mark e)

-- Where the mutex is free, or its own, the probing thread has a step until it has ended.
free_prober_goes_on :
    (m : Manager) (p : Probing) → m.probing ≡ p → m.holder ≡ none → (p ≡ ended) ⊎ CanProbe m
free_prober_goes_on m unborn e f = inr (_, start_probing e f)
free_prober_goes_on m entering e f = inr (_, lock_loop e f)
free_prober_goes_on m checking e f = inr (_, check e)
free_prober_goes_on m waiting e f = inr (_, wake e f)
free_prober_goes_on m woken e f = inr (_, check_again e)
free_prober_goes_on m ended e f = inl refl
free_prober_goes_on m (before i) e f = elim (dec_lt i (length m.servers)) [
  | yes h ↦ inr (_, lock_look e h f)
  | no h ↦ inr (_, round_end e (omega arith))
]
free_prober_goes_on m (looking i) e f = inr (_, inspect e)
free_prober_goes_on m (contacting i a) e f = inr (_, contact probe_still e)
free_prober_goes_on m (reviving i rtt) e f = inr (_, lock_renewal e f)
free_prober_goes_on m (renewing i rtt) e f = inr (_, renewal e)

locked_prober_goes_on :
    (m : Manager) (p : Probing) → m.probing ≡ p → probes_locked p ≡ true → CanProbe m
locked_prober_goes_on m unborn e h = cc h
locked_prober_goes_on m entering e h = cc h
locked_prober_goes_on m checking e h = (_, check e)
locked_prober_goes_on m waiting e h = cc h
locked_prober_goes_on m woken e h = (_, check_again e)
locked_prober_goes_on m ended e h = cc h
locked_prober_goes_on m (before i) e h = cc h
locked_prober_goes_on m (looking i) e h = (_, inspect e)
locked_prober_goes_on m (contacting i a) e h = cc h
locked_prober_goes_on m (reviving i rtt) e h = cc h
locked_prober_goes_on m (renewing i rtt) e h = (_, renewal e)

abbrev pub GoesOnWith : DnsPacket → Manager → Option Worker → Type 0
GoesOnWith query m none = (m.probing ≡ ended) ⊎ CanProbe m
GoesOnWith query m (some asker) = CanAsk query m
GoesOnWith query m (some prober) = CanProbe m

goes_on :
    (query : DnsPacket) (m : Manager) (o : Option Worker)
    → m.holder ≡ o
    → HoldsMutex o (asks_locked m.asking) (probes_locked m.probing)
    → GoesOnWith query m o
goes_on query m none f h = free_prober_goes_on m m.probing refl f
goes_on query m (some asker) f h = asker_goes_on query m m.asking refl h.0
goes_on query m (some prober) f h = locked_prober_goes_on m m.probing refl h.1

-- In every state that the threads reach from a table of new servers there is no deadlock: the thread
-- that holds the mutex has a step that it can make, and where the mutex is free the probing thread has
-- one or has ended.
pub Reach-goes_on :
    {servers : List RootServer} {m : Manager} (query : DnsPacket)
    → All IsNew servers
    → Reach servers m
    → GoesOnWith query m m.holder
Reach-goes_on {m} query h r = goes_on query m m.holder refl (Reach-IsManager h r).holds
