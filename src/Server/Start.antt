-- ===== src/Server/Start.antt =====
-- The server's loop goes on whatever arrives, and answers nobody but who asked.
use dns_server_cpp.Address.Text.{InetPton}
use dns_server_cpp.Buffer.Safe.{IsValid}
use dns_server_cpp.Buffer.State.{BytePacketBuffer}
use dns_server_cpp.Cache.Runs.{IsCache, empty_cache-IsCache}
use dns_server_cpp.Common.{
  All, List, Option, [], none, pos, refl, some, subst, sym, ℕ, ◌++◌, ◌∷◌, ◌≡◌, ◌≤◌,
}
use dns_server_cpp.Net.Endpoints.{default_endpoint, set_address_length_fits, storage_size}
use dns_server_cpp.Resolver.Answered.{KeepsRoots}
use dns_server_cpp.Resolver.Task.{World, give}
use dns_server_cpp.Server.Accounts.{IsBalanced}
use dns_server_cpp.Server.Descriptors.{IsConstructed, construct-IsConstructed}
use dns_server_cpp.Server.Loop.{
  Arrival, Poll, Run, Sent, datagram, listening_port, not_started, nothing, poll_failed,
  poll_timeout, ready, run_main, sent_to, serve_arrival, serve_poll, served, start, start_server,
  unreadable, without_server,
}
use dns_server_cpp.Server.Serving.{
  IsSent, IsServed, Serves, bind-IsServed, give-IsServed, serve-IsServed,
}
use dns_server_cpp.Server.Sockets.{DnsServer, Kernel, Opening, construct, cut_off, done, raised}

-- A reply to what a descriptor had: it goes back through the descriptor, to the sender's address.
abbrev pub RepliesAt : ℕ → Arrival → Sent → Type 0
RepliesAt fd nothing s = ⊥
RepliesAt fd unreadable s = ⊥
RepliesAt fd (datagram source address_length bytes) s =
    (s.descriptor ≡ fd)
    × (s.destination ≡ record { storage = source; address_length = address_length })
    × IsValid s.contents

-- What is sent for a descriptor: a reply at most.
abbrev pub ServesAt : ℕ → Arrival → List Sent → Type 0
ServesAt fd a [] = Unit
ServesAt fd a (s ∷ []) = RepliesAt fd a s
ServesAt fd a (s ∷ t ∷ sent) = ⊥

-- What is sent in a round: for each descriptor a reply at most.
abbrev pub ServesPoll : ℕ → ℕ → Poll → List Sent → Type 0
ServesPoll socket4 socket6 poll_failed sent = sent ≡ []
ServesPoll socket4 socket6 poll_timeout sent = sent ≡ []
ServesPoll socket4 socket6 (ready first other) sent =
    (xs : List Sent) × (ys : List Sent) × (sent ≡ xs ++ ys)
    × ServesAt socket4 first xs
    × ServesAt socket6 other ys

-- What is sent in each of the rounds.
abbrev pub ServesEach : ℕ → ℕ → List Poll → List (List Sent) → Type 0
ServesEach socket4 socket6 [] [] = Unit
ServesEach socket4 socket6 [] (sent ∷ rounds) = ⊥
ServesEach socket4 socket6 (p ∷ polls) [] = ⊥
ServesEach socket4 socket6 (p ∷ polls) (sent ∷ rounds) =
    ServesPoll socket4 socket6 p sent × ServesEach socket4 socket6 polls rounds

-- `recvfrom` gives the length of an address that fits the storage.
abbrev pub ArrivalFits : Arrival → Type 0
ArrivalFits nothing = Unit
ArrivalFits unreadable = Unit
ArrivalFits (datagram source address_length bytes) = address_length ≤ storage_size

abbrev pub PollFits : Poll → Type 0
PollFits poll_failed = Unit
PollFits poll_timeout = Unit
PollFits (ready first other) = ArrivalFits first × ArrivalFits other

module _ (w : World) (depth : ℕ) (keeps : KeepsRoots w) where
  serve_arrival-IsServed :
      (fd : ℕ) (a : Arrival) → ArrivalFits a → IsServed (ServesAt fd a) (serve_arrival w depth fd a)
  unfolding serve_arrival
  serve_arrival-IsServed fd nothing h = give-IsServed [] tt
  serve_arrival-IsServed fd unreadable h = give-IsServed [] tt
  serve_arrival-IsServed fd (datagram source n bytes) h =
      rw (set_address_length_fits n (record default_endpoint { storage = source }) h)
        (bind-IsServed (serve-IsServed w depth bytes keeps) replied)
    where
      replied :
          (o : Option BytePacketBuffer)
          → IsSent o
          → IsServed
              (ServesAt fd (datagram source n bytes))
              (give (sent_to fd (record { storage = source; address_length = n }) o))
      replied none s = give-IsServed [] tt
      replied (some b) s = give-IsServed _ (refl, refl, s)

  serve_poll-IsServed :
      (socket4 socket6 : ℕ) (p : Poll)
      → PollFits p
      → IsServed (ServesPoll socket4 socket6 p) (serve_poll w depth socket4 socket6 p)
  unfolding serve_poll
  serve_poll-IsServed socket4 socket6 poll_failed h = give-IsServed [] refl
  serve_poll-IsServed socket4 socket6 poll_timeout h = give-IsServed [] refl
  serve_poll-IsServed socket4 socket6 (ready first other) h =
      bind-IsServed (serve_arrival-IsServed socket4 first h.0) λ xs x.
        bind-IsServed (serve_arrival-IsServed socket6 other h.1)
          λ ys y. give-IsServed (xs ++ ys) (xs, ys, refl, x, y)

  -- The loop of the server never ends by an exception or a fault, whatever datagrams arrive and
  -- whatever the network answers: in each round it sends for each descriptor one reply at most, through
  -- the descriptor and to the address that the datagram came from, and the reply stands in a
  -- well-formed buffer; the cache keeps its invariant. It is asked that the addresses of senders fit
  -- their storage and that the surroundings of the root servers' manager keep the addresses of its
  -- table. Of a lookup that is cut off at its depth nothing is said.
  pub start-IsServed :
      (socket4 socket6 : ℕ) (polls : List Poll)
      → All PollFits polls
      → IsServed (ServesEach socket4 socket6 polls) (start w depth socket4 socket6 polls)
  unfolding start
  start-IsServed socket4 socket6 [] h = give-IsServed [] tt
  start-IsServed socket4 socket6 (p ∷ polls) h =
      bind-IsServed (serve_poll-IsServed socket4 socket6 p h.0) λ xs x.
        bind-IsServed (start-IsServed socket4 socket6 polls h.1)
          λ rest y. give-IsServed (xs ∷ rest) (x, y)

  -- A run that cannot open the server has closed what it opened; one that serves does as the loop.
  abbrev pub IsRun : List Poll → Run → Type 0
  IsRun polls (not_started log e) = IsBalanced log
  IsRun polls (served s l) = Serves (ServesEach s.socket4 s.socket6 polls) l
  IsRun polls without_server = ⊥

  start_server-IsRun :
      (polls : List Poll) (o : Opening DnsServer)
      → All PollFits polls
      → IsConstructed o
      → IsRun polls (start_server w depth polls o)
  start_server-IsRun polls (done log s) h c =
      (start-IsServed s.socket4 s.socket6 polls h).run s.resolver
        (subst IsCache (sym c.0) empty_cache-IsCache)
  start_server-IsRun polls (raised log e) h c = c
  start_server-IsRun polls cut_off h c = elim c [ ]

  -- A run of the program, whatever the configuration file holds, whichever system call of the
  -- constructor fails and whatever arrives: either the constructor throws and each descriptor was
  -- closed as often as it was opened, or the server serves its rounds without an exception or a fault,
  -- sends in each for each descriptor one reply at most, through the descriptor and to the address
  -- that the datagram came from, in a well-formed buffer, and has a cache with its invariant at the
  -- end. It is asked that the addresses of senders fit their storage and that the surroundings of the
  -- root servers' manager keep the addresses of its table. Of a lookup that is cut off at its depth
  -- nothing is said.
  pub run_main-IsRun :
      (inet : InetPton) (file : Option (List ℕ)) (k : Kernel) (polls : List Poll)
      → All PollFits polls
      → IsRun polls (run_main inet file k w depth polls)
  unfolding run_main
  run_main-IsRun inet file k polls h =
      start_server-IsRun polls (construct inet file k (pos listening_port)) h
        (construct-IsConstructed k inet file (pos listening_port))
