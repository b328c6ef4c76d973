-- ===== src/Server/Sockets.antt =====
-- The constructor and the destructor of DnsServer (src/DnsServer.cxx): the table of root servers, and
-- two listening sockets. What the system calls come to is a parameter.
use dns_server_cpp.Address.Text.{InetPton, inet6_family, inet_family}
use dns_server_cpp.Buffer.State.{Error, invalid_argument, runtime_error}
use dns_server_cpp.Cache.Defs.{empty_cache}
use dns_server_cpp.Common.{
  Bool, List, Option, [], if◌then◌else◌, ltb, map, negsuc, none, not, pos, some, ℕ, ℤ, ◌%◌, ◌++◌,
  ◌==◌, ◌^◌, ◌∷◌,
}
use dns_server_cpp.Config.Load.{Loading, load_servers, loaded, refused, unfinished}
use dns_server_cpp.Net.Endpoints.{Endpoint, any_endpoint, family_of}
use dns_server_cpp.Resolver.Task.{Resolver}
use dns_server_cpp.Roots.Defs.{RootServer}

-- What the kernel answers: the descriptor of a socket of a family, unless none opens, and whether
-- `setsockopt` and `bind` succeed.
pub record Kernel : Type 0 where
  pub opened : ℕ → Option ℕ
  pub limited : ℕ → Bool
  pub bound : ℕ → Endpoint → Bool

-- A system call that was made: `socket` with the family and the descriptor it returned, `setsockopt`
-- of IPV6_V6ONLY, `bind`, `close`.
pub data SystemCall : Type 0 where
  open_socket : ℕ → ℕ → SystemCall
  limit_socket : ℕ → SystemCall
  bind_socket : ℕ → Endpoint → SystemCall
  close_socket : ℕ → SystemCall

-- The calls that were made so far, and a result or an exception; or, in the model only, a loop out of
-- its fuel.
pub data Opening (A : Type 0) : Type 0 where
  done : List SystemCall → A → Opening A
  raised : List SystemCall → Error → Opening A
  cut_off : Opening A

abbrev pub calls_close : List ℕ → List SystemCall
calls_close fds = map close_socket fds

-- The second socket; the handler of an exception closes the first.
abbrev pub after_second : ℕ → Opening ℕ → Opening (ℕ × ℕ)
after_second fd4 (done log fd6) = done log (fd4, fd6)
after_second fd4 (raised log e) = raised (log ++ calls_close (fd4 ∷ [])) e
after_second fd4 cut_off = cut_off

module _ (k : Kernel) where
  -- `bind`, and `close` where it fails.
  abbrev pub bind_or_close : ℕ → Endpoint → List SystemCall → Opening ℕ
  bind_or_close fd address log =
      if not (k.bound fd address)
      then raised (log ++ (bind_socket fd address ∷ close_socket fd ∷ [])) runtime_error
      else done (log ++ (bind_socket fd address ∷ [])) fd

  -- What follows `socket`: for IPv6 also `setsockopt`.
  abbrev pub after_open : ℕ → Endpoint → List SystemCall → Option ℕ → Opening ℕ
  after_open family address log none = raised log runtime_error
  after_open family address log (some fd) =
      let log' : List SystemCall = log ++ (open_socket (family_of address.storage) fd ∷ []) in
      if family == inet6_family
      then (if not (k.limited fd)
          then raised (log' ++ (limit_socket fd ∷ close_socket fd ∷ [])) runtime_error
          else bind_or_close fd address (log' ++ (limit_socket fd ∷ [])))
      else bind_or_close fd address log'

  abbrev pub after_any : ℕ → List SystemCall → Option Endpoint → Opening ℕ
  after_any family log none = raised log invalid_argument
  after_any family log (some address) =
      after_open family address log (k.opened (family_of address.storage))

  -- `MakeListeningSocket`.
  unfoldable pub make_listening_socket : ℕ → ℕ → List SystemCall → Opening ℕ
  make_listening_socket family port log = after_any family log (any_endpoint family port)

  -- The first socket; the handler has none to close.
  abbrev pub after_first : ℕ → Opening ℕ → Opening (ℕ × ℕ)
  after_first port (done log fd4) = after_second fd4 (make_listening_socket inet6_family port log)
  after_first port (raised log e) = raised (log ++ calls_close []) e
  after_first port cut_off = cut_off

  unfoldable pub open_sockets : ℕ → Opening (ℕ × ℕ)
  open_sockets port = after_first port (make_listening_socket inet_family port [])

-- A DnsServer; its resolver starts with an empty cache and the table of root servers.
pub record DnsServer : Type 0 where
  pub socket4 : ℕ
  pub socket6 : ℕ
  pub port : ℕ
  pub resolver : Resolver

abbrev pub new_resolver : List RootServer → Resolver
new_resolver servers = record { cache = empty_cache; servers = servers; events = 0 }

abbrev pub with_sockets : ℕ → List RootServer → Opening (ℕ × ℕ) → Opening DnsServer
with_sockets port servers (done log (fd4, fd6)) =
    done log (record { socket4 = fd4; socket6 = fd6; port = port; resolver = new_resolver servers })
with_sockets port servers (raised log e) = raised log e
with_sockets port servers cut_off = cut_off

-- The body of the constructor, behind the members.
unfoldable pub open_server : Kernel → ℤ → List RootServer → Opening DnsServer
open_server k (negsuc n) servers = raised [] invalid_argument
open_server k (pos n) servers =
    if ltb 65535 n
    then raised [] invalid_argument
    else with_sockets (n % 2 ^ 16) servers (open_sockets k (n % 2 ^ 16))

-- The constructor: the resolver is a member, so the table of root servers is loaded first.
abbrev pub construct_from : Kernel → ℤ → Loading (List RootServer) → Opening DnsServer
construct_from k port (loaded servers) = open_server k port servers
construct_from k port (refused e) = raised [] e
construct_from k port unfinished = cut_off

unfoldable pub construct : InetPton → Option (List ℕ) → Kernel → ℤ → Opening DnsServer
construct inet file k port = construct_from k port (load_servers inet file)

-- The calls of the destructor.
unfoldable pub destroy : DnsServer → List SystemCall
destroy s = calls_close (s.socket4 ∷ s.socket6 ∷ [])
