-- ===== src/Roots/Threads.antt =====
-- The two threads that share the table of root servers, a step at a time (src/RootServerManager.cxx,
-- include/RootServerManager.hpp): the one that asks in `AskRootServer`, and the one that probes in
-- `ProbeLoop` and `ProbeFailedServers`. A step either waits for no lock, or takes the mutex, or does
-- what stands between two locked regions or inside one. What a thread holds in local variables stands
-- with its place in the code.
use dns_server_cpp.Address.Defs.{IpAddress}
use dns_server_cpp.Common.{
  Bool, List, Option, [], false, if◌then◌else◌, length, none, not, some, suc, true, ℕ, ◌++◌, ◌-◌,
  ◌<◌, ◌∷◌, ◌≡◌, ◌≤◌,
}
use dns_server_cpp.Net.Exchange.{Verdict, answered, failed, faulted, no_verdict, threw}
use dns_server_cpp.Packet.Defs.{DnsPacket}
use dns_server_cpp.Roots.Ask.{
  Surroundings, ask_server, change_at, element, mark_answered, mark_failed, max_attempts, pick,
}
use dns_server_cpp.Roots.Defs.{RootServer, fail, has_status, new_server}
use dns_server_cpp.Roots.Probe.{ProbeSurroundings, Probed, alive, no_change, probe_result, stopped}

pub data Worker : Type 0 where
  asker prober : Worker

-- Where the asking thread stands: in no call; before an attempt, with the addresses tried and the
-- attempts left; in the locked region that chooses a server; in the exchange with the server of an
-- index; before and in the locked region that marks it.
pub data Asking : Type 0 where
  outside : Asking
  between choosing : List IpAddress → ℕ → Asking
  exchanging : List IpAddress → ℕ → ℕ → IpAddress → Asking
  marking writing : List IpAddress → ℕ → ℕ → Verdict → Asking

-- Where the probing thread stands: not started; before the lock of the loop; at its test, with the
-- lock; in `wait_for`, which gives the lock back; at the test behind it; before the server of an index
-- in `ProbeFailedServers`; looking at its status; in the exchange; before and in the locked region
-- that marks it; at its end.
pub data Probing : Type 0 where
  unborn entering checking waiting woken ended : Probing
  before looking : ℕ → Probing
  contacting : ℕ → IpAddress → Probing
  reviving renewing : ℕ → ℕ → Probing

-- The table, the holder of `mtx`, the threads, and whether a stop was requested.
pub record Manager : Type 0 where
  pub servers : List RootServer
  pub holder : Option Worker
  pub asking : Asking
  pub probing : Probing
  pub stop : Bool

-- What follows an exchange. An exception leaves the call, with the mutex free. A fault is excluded by the theorem on exchanges.
abbrev pub after_exchange : Verdict → List IpAddress → ℕ → ℕ → Asking
after_exchange no_verdict tried left i = between tried left
after_exchange failed tried left i = marking tried left i failed
after_exchange (answered p rtt) tried left i = marking tried left i (answered p rtt)
after_exchange threw tried left i = outside
after_exchange faulted tried left i = outside

-- What is written to the table, and where the call goes on.
abbrev pub written : Verdict → ℕ → List RootServer → List RootServer
written no_verdict i servers = servers
written failed i servers = change_at i mark_failed servers
written (answered p rtt) i servers = change_at i (mark_answered rtt) servers
written threw i servers = servers
written faulted i servers = servers

abbrev pub after_writing : Verdict → List IpAddress → ℕ → Asking
after_writing no_verdict tried left = between tried left
after_writing failed tried left = between tried left
after_writing (answered p rtt) tried left = outside
after_writing threw tried left = outside
after_writing faulted tried left = outside

-- A step of the asking thread, which asks a query. Its random draws and the network are any.
pub data AskStep (query : DnsPacket) (m : Manager) : Manager → Type 0 where
  call : m.asking ≡ outside → AskStep query m (record m { asking = between [] max_attempts })
  exhausted :
      {tried : List IpAddress}
      → m.asking ≡ between tried 0
      → AskStep query m (record m { asking = outside })
  lock_choice :
      {tried : List IpAddress} {left : ℕ}
      → m.asking ≡ between tried (suc left)
      → m.holder ≡ none
      → AskStep query m (record m { holder = some asker; asking = choosing tried left })
  choice :
      {tried : List IpAddress} {left i : ℕ} {s : RootServer} (w : Surroundings)
      → m.asking ≡ choosing tried left
      → pick w query (max_attempts - suc left) tried m.servers ≡ some (i, s)
      → AskStep query m (record m {
        holder = none;
        asking = exchanging (tried ++ (s.address ∷ [])) left i s.address;
      })
  no_choice :
      {tried : List IpAddress} {left : ℕ} (w : Surroundings)
      → m.asking ≡ choosing tried left
      → pick w query (max_attempts - suc left) tried m.servers ≡ none
      → AskStep query m (record m { holder = none; asking = outside })
  exchanged :
      {tried : List IpAddress} {left i : ℕ} {a : IpAddress} (w : Surroundings)
      → m.asking ≡ exchanging tried left i a
      → AskStep query m (record m {
        asking = after_exchange (ask_server w query (max_attempts - suc left) a) tried left i;
      })
  lock_mark :
      {tried : List IpAddress} {left i : ℕ} {v : Verdict}
      → m.asking ≡ marking tried left i v
      → m.holder ≡ none
      → AskStep query m (record m { holder = some asker; asking = writing tried left i v })
  mark :
      {tried : List IpAddress} {left i : ℕ} {v : Verdict}
      → m.asking ≡ writing tried left i v
      → AskStep query m (record m {
        servers = written v i m.servers;
        holder = none;
        asking = after_writing v tried left;
      })

-- The tests of `ProbeLoop`.
abbrev pub after_check : Bool → Probing
after_check stop = if stop then ended else waiting

abbrev pub after_wait : Bool → Probing
after_wait stop = if stop then ended else before 0

-- The status of the server of an index is looked at: only one that failed is asked.
abbrev pub after_look : ℕ → Option RootServer → Probing
after_look i none = before (suc i)
after_look i (some s) = if not (has_status fail s) then before (suc i) else contacting i s.address

-- What follows the exchange with a server. An exception that leaves it ends the thread,
-- and the program with it.
abbrev pub after_contact : Probed → ℕ → Probing
after_contact no_change i = before (suc i)
after_contact stopped i = ended
after_contact (alive rtt) i = reviving i rtt

-- A step of the probing thread.
pub data ProbeStep (m : Manager) : Manager → Type 0 where
  start_probing :
      m.probing ≡ unborn → m.holder ≡ none → ProbeStep m (record m { probing = entering })
  lock_loop :
      m.probing ≡ entering
      → m.holder ≡ none
      → ProbeStep m (record m { holder = some prober; probing = checking })
  check :
      m.probing ≡ checking → ProbeStep m (record m { holder = none; probing = after_check m.stop })
  wake :
      m.probing ≡ waiting
      → m.holder ≡ none
      → ProbeStep m (record m { holder = some prober; probing = woken })
  check_again :
      m.probing ≡ woken → ProbeStep m (record m { holder = none; probing = after_wait m.stop })
  lock_look :
      {i : ℕ}
      → m.probing ≡ before i
      → i < length m.servers
      → m.holder ≡ none
      → ProbeStep m (record m { holder = some prober; probing = looking i })
  inspect :
      {i : ℕ}
      → m.probing ≡ looking i
      → ProbeStep m (record m { holder = none; probing = after_look i (element m.servers i) })
  contact :
      {i : ℕ} {a : IpAddress} (w : ProbeSurroundings)
      → m.probing ≡ contacting i a
      → ProbeStep m (record m { probing = after_contact (probe_result w i (new_server a)) i })
  lock_renewal :
      {i rtt : ℕ}
      → m.probing ≡ reviving i rtt
      → m.holder ≡ none
      → ProbeStep m (record m { holder = some prober; probing = renewing i rtt })
  renewal :
      {i rtt : ℕ}
      → m.probing ≡ renewing i rtt
      → ProbeStep m (record m {
        servers = change_at i (mark_answered rtt) m.servers;
        holder = none;
        probing = before (suc i);
      })
  round_end :
      {i : ℕ}
      → m.probing ≡ before i
      → length m.servers ≤ i
      → ProbeStep m (record m { probing = entering })

-- A step of the whole; the destructor requests the stop.
pub data Step (m : Manager) : Manager → Type 0 where
  ask : {n : Manager} (query : DnsPacket) → AskStep query m n → Step m n
  probe : {n : Manager} → ProbeStep m n → Step m n
  request_stop : m.asking ≡ outside → Step m (record m { stop = true })

-- The manager as its constructor leaves it.
abbrev pub new_manager : List RootServer → Manager
new_manager servers = record {
  servers = servers;
  holder = none;
  asking = outside;
  probing = unborn;
  stop = false;
}

pub data Reach (servers : List RootServer) : Manager → Type 0 where
  begin : Reach servers (new_manager servers)
  later : {m n : Manager} → Reach servers m → Step m n → Reach servers n
