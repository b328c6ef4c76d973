-- ===== src/Server/Descriptors.antt =====
-- The descriptors of the server's sockets: none is lost when the constructor throws.
use dns_server_cpp.Address.Text.{InetPton, inet6_family, inet_family}
use dns_server_cpp.Cache.Defs.{empty_cache}
use dns_server_cpp.Common.{
  Bool-cases, List, Option, [], arith, false, inl, inr, is_empty, ltb, negsuc, pos, refl, some, ℕ,
  ℤ, ◌%◌, ◌++◌, ◌<◌, ◌^◌, ◌∷◌, ◌≡◌,
}
use dns_server_cpp.Config.Load.{Loading, load_servers, loaded, refused, unfinished}
use dns_server_cpp.Config.Loaded.{IsLoaded, load_servers-IsLoaded}
use dns_server_cpp.Net.Endpoints.{Endpoint, any_endpoint}
use dns_server_cpp.Roots.Defs.{RootServer}
use dns_server_cpp.Server.Accounts.{
  IsBalanced, IsMade, listening_calls, make_listening_socket-IsMade, times_closed-append,
  times_opened-append,
}
use dns_server_cpp.Server.Sockets.{
  DnsServer, Kernel, Opening, SystemCall, after_first, after_second, calls_close, close_socket,
  construct, construct_from, cut_off, destroy, done, open_server, open_sockets, raised,
  with_sockets,
}

-- The calls of two listening sockets, and what is left open by them.
record AreListening (port fd4 fd6 : ℕ) (log : List SystemCall) : Type 0 where
  address4 : Endpoint
  address6 : Endpoint
  any4 : any_endpoint inet_family port ≡ some address4
  any6 : any_endpoint inet6_family port ≡ some address6
  calls :
      log ≡ listening_calls inet_family fd4 address4 ++ listening_calls inet6_family fd6 address6

closes_both :
    {port fd4 fd6 : ℕ} {log : List SystemCall}
    → AreListening port fd4 fd6 log
    → IsBalanced (log ++ calls_close (fd4 ∷ fd6 ∷ []))
closes_both {log} l fd = rw l.calls (omega arith)

-- How the constructor ends: where it throws, every descriptor that was opened is closed; where it
-- returns, the cache is empty, the table has a server, the port is one of 16 bits, the calls were those
-- of a socket of each family that listens at any address with this port, and those of the destructor
-- close what was opened.
abbrev pub IsConstructed : Opening DnsServer → Type 0
IsConstructed (done log s) =
    (s.resolver.cache ≡ empty_cache)
    × (is_empty s.resolver.servers ≡ false)
    × (s.port < 2 ^ 16)
    × (address4 : Endpoint) × (address6 : Endpoint) × (any_endpoint inet_family s.port
        ≡ some address4)
    × (any_endpoint inet6_family s.port ≡ some address6)
    × (log
        ≡ listening_calls inet_family s.socket4 address4
          ++ listening_calls inet6_family s.socket6 address6)
    × IsBalanced (log ++ destroy s)
IsConstructed (raised log e) = IsBalanced log
IsConstructed cut_off = ⊥

abbrev AreOpened : ℕ → Opening (ℕ × ℕ) → Type 0
AreOpened port (done log (fd4, fd6)) = AreListening port fd4 fd6 log
AreOpened port (raised log e) = IsBalanced log
AreOpened port cut_off = ⊥

after_second-AreOpened :
    (port fd4 : ℕ) (address : Endpoint) (o : Opening ℕ)
    → any_endpoint inet_family port ≡ some address
    → IsMade inet6_family port (listening_calls inet_family fd4 address) o
    → AreOpened port (after_second fd4 o)
after_second-AreOpened port fd4 address (done log fd6) e (address6, e6, c) = record {
  address4 = address;
  address6 = address6;
  any4 = e;
  any6 = e6;
  calls = c;
}
after_second-AreOpened port fd4 address (raised log x) e h = λ fd. omega (
  arith,
  h fd,
  times_opened-append fd log (close_socket fd4 ∷ []),
  times_closed-append fd log (close_socket fd4 ∷ []),
)
after_second-AreOpened port fd4 address cut_off e h = elim h [ ]

module _ (k : Kernel) where
  after_first-AreOpened :
      (port : ℕ) (o : Opening ℕ)
      → IsMade inet_family port [] o
      → AreOpened port (after_first k port o)
  after_first-AreOpened port (done log fd4) (address, e, c) = rw c (
      after_second-AreOpened port fd4 address _ e (
        make_listening_socket-IsMade k inet6_family port (listening_calls inet_family fd4 address)))
  after_first-AreOpened port (raised log x) h =
      λ fd. omega (arith, h fd, times_opened-append fd log [], times_closed-append fd log [])
  after_first-AreOpened port cut_off h = elim h [ ]

  with_sockets-IsConstructed :
      (port : ℕ) (servers : List RootServer) (o : Opening (ℕ × ℕ))
      → is_empty servers ≡ false
      → port < 2 ^ 16
      → AreOpened port o
      → IsConstructed (with_sockets port servers o)
  unfolding destroy
  with_sockets-IsConstructed port servers (done log (fd4, fd6)) e h l =
      (refl, e, h, l.address4, l.address6, l.any4, l.any6, l.calls, closes_both l)
  with_sockets-IsConstructed port servers (raised log x) e h l = l
  with_sockets-IsConstructed port servers cut_off e h l = elim l [ ]

  open_server-IsConstructed :
      (port : ℤ) (servers : List RootServer)
      → is_empty servers ≡ false
      → IsConstructed (open_server k port servers)
  unfolding open_server open_sockets
  open_server-IsConstructed (negsuc n) servers e = λ fd. refl
  open_server-IsConstructed (pos n) servers e = elim (Bool-cases (ltb 65535 n)) [
    | inl large ↦ rw large (λ fd. refl)
    | inr fits ↦ rw fits (
        with_sockets-IsConstructed (n % 2 ^ 16) servers _ e (omega arith) (
          after_first-AreOpened (n % 2 ^ 16) _
            (make_listening_socket-IsMade k inet_family (n % 2 ^ 16) [])))
  ]

  construct_from-IsConstructed :
      (port : ℤ) (l : Loading (List RootServer))
      → IsLoaded l
      → IsConstructed (construct_from k port l)
  construct_from-IsConstructed port (loaded servers) h = open_server-IsConstructed port servers h.0
  construct_from-IsConstructed port (refused e) h = λ fd. refl
  construct_from-IsConstructed port unfinished h = elim h [ ]

  -- The constructor of the server loses no descriptor, whatever the configuration file holds and
  -- whichever system call fails: where it throws, each descriptor was closed as often as it was opened.
  -- Where it returns, the cache is empty, the table has a server, the port has 16 bits, the calls were those that open and bind one socket for IPv4
  -- and one that is limited to IPv6, at any address with this port, and with the destructor's calls
  -- behind them each descriptor is closed as often as it is opened.
  pub construct-IsConstructed :
      (inet : InetPton) (file : Option (List ℕ)) (port : ℤ)
      → IsConstructed (construct inet file k port)
  unfolding construct
  construct-IsConstructed inet file port =
      construct_from-IsConstructed port (load_servers inet file) (load_servers-IsLoaded inet file)
