-- ===== src/Roots/Mutex.antt =====
-- The mutex of the root servers' manager: which places of the threads stand inside a locked region.
use dns_server_cpp.Address.Defs.{IpAddress}
use dns_server_cpp.Common.{
  Bool, List, Option, false, if◌then◌else◌, none, not, refl, some, true, ℕ, ◌≡◌,
}
use dns_server_cpp.Net.Exchange.{Verdict, answered, failed, faulted, no_verdict, threw}
use dns_server_cpp.Roots.Defs.{RootServer, fail, has_status}
use dns_server_cpp.Roots.Probe.{Probed, alive, no_change, stopped}
use dns_server_cpp.Roots.Threads.{
  Asking, Probing, Worker, after_check, after_contact, after_exchange, after_look, after_wait,
  after_writing, asker, before, between, checking, choosing, contacting, ended, entering,
  exchanging, looking, marking, outside, prober, renewing, reviving, unborn, waiting, woken,
  writing,
}

-- The places inside a locked region.
abbrev pub asks_locked : Asking → Bool
asks_locked outside = false
asks_locked (between tried left) = false
asks_locked (choosing tried left) = true
asks_locked (exchanging tried left i a) = false
asks_locked (marking tried left i v) = false
asks_locked (writing tried left i v) = true

abbrev pub probes_locked : Probing → Bool
probes_locked unborn = false
probes_locked entering = false
probes_locked checking = true
probes_locked waiting = false
probes_locked woken = true
probes_locked ended = false
probes_locked (before i) = false
probes_locked (looking i) = true
probes_locked (contacting i a) = false
probes_locked (reviving i rtt) = false
probes_locked (renewing i rtt) = true

-- A thread is in a locked region exactly if it holds the mutex.
abbrev pub HoldsMutex : Option Worker → Bool → Bool → Type 0
HoldsMutex none a p = (a ≡ false) × (p ≡ false)
HoldsMutex (some asker) a p = (a ≡ true) × (p ≡ false)
HoldsMutex (some prober) a p = (a ≡ false) × (p ≡ true)

-- A step out of or into a locked region, on the thread's place in it.
pub frees_asker : (o : Option Worker) (p : Bool) → HoldsMutex o true p → p ≡ false
frees_asker none p h = absurd (cc (h.0))
frees_asker (some asker) p h = h.1
frees_asker (some prober) p h = cc (h.0)

pub frees_prober : (o : Option Worker) (a : Bool) → HoldsMutex o a true → a ≡ false
frees_prober none a h = h.0
frees_prober (some asker) a h = cc (h.1)
frees_prober (some prober) a h = h.0

pub holds_asker : (o : Option Worker) (p : Bool) → HoldsMutex o true p → o ≡ some asker
holds_asker none p h = absurd (cc (h.0))
holds_asker (some asker) p h = refl
holds_asker (some prober) p h = cc (h.0)

pub holds_prober : (o : Option Worker) (a : Bool) → HoldsMutex o a true → o ≡ some prober
holds_prober none a h = cc (h.1)
holds_prober (some asker) a h = cc (h.1)
holds_prober (some prober) a h = refl

pub after_exchange-unlocked :
    (v : Verdict) (tried : List IpAddress) (left i : ℕ)
    → asks_locked (after_exchange v tried left i) ≡ false
after_exchange-unlocked no_verdict tried left i = refl
after_exchange-unlocked failed tried left i = refl
after_exchange-unlocked (answered p rtt) tried left i = refl
after_exchange-unlocked threw tried left i = refl
after_exchange-unlocked faulted tried left i = refl

pub after_writing-unlocked :
    (v : Verdict) (tried : List IpAddress) (left : ℕ)
    → asks_locked (after_writing v tried left) ≡ false
after_writing-unlocked no_verdict tried left = refl
after_writing-unlocked failed tried left = refl
after_writing-unlocked (answered p rtt) tried left = refl
after_writing-unlocked threw tried left = refl
after_writing-unlocked faulted tried left = refl

pub after_check-unlocked : (stop : Bool) → probes_locked (after_check stop) ≡ false
after_check-unlocked true = refl
after_check-unlocked false = refl

pub after_wait-unlocked : (stop : Bool) → probes_locked (after_wait stop) ≡ false
after_wait-unlocked true = refl
after_wait-unlocked false = refl

pub if-unlocked :
    (c : Bool) (p q : Probing)
    → probes_locked p ≡ false
    → probes_locked q ≡ false
    → probes_locked (if c then p else q) ≡ false
if-unlocked true p q h k = h
if-unlocked false p q h k = k

pub after_look-unlocked : (i : ℕ) (o : Option RootServer) → probes_locked (after_look i o) ≡ false
after_look-unlocked i none = refl
after_look-unlocked i (some s) = if-unlocked (not (has_status fail s)) _ _ refl refl

pub after_contact-unlocked : (r : Probed) (i : ℕ) → probes_locked (after_contact r i) ≡ false
after_contact-unlocked no_change i = refl
after_contact-unlocked stopped i = refl
after_contact-unlocked (alive rtt) i = refl
