-- ===== src/Server/Loop.antt =====
-- `DnsServer::start` (src/DnsServer.cxx): rounds of `poll`, and what is sent in each. What the system
-- calls come to is the list of rounds; the loop of the code has no end, the model runs as many rounds
-- as are given.
use dns_server_cpp.Address.Text.{InetPton}
use dns_server_cpp.Buffer.State.{BytePacketBuffer, Error}
use dns_server_cpp.Common.{List, Option, [], none, pos, some, ℕ, ◌++◌, ◌∷◌}
use dns_server_cpp.Net.Endpoints.{Endpoint, default_endpoint, set_address_length}
use dns_server_cpp.Net.Sockets.{SocketAddress}
use dns_server_cpp.Resolver.Task.{Looked, Task, World, fault, give, ◌>>=◌}
use dns_server_cpp.Server.Defs.{serve}
use dns_server_cpp.Server.Sockets.{
  DnsServer, Kernel, Opening, SystemCall, construct, cut_off, done, raised,
}

-- What a descriptor has: nothing to read, a `recvfrom` that failed, or a datagram with the storage and
-- the length of its sender's address.
pub data Arrival : Type 0 where
  nothing unreadable : Arrival
  datagram : SocketAddress → ℕ → List ℕ → Arrival

-- What `poll` comes to: an error, a timeout, or what the two descriptors have.
pub data Poll : Type 0 where
  poll_failed poll_timeout : Poll
  ready : Arrival → Arrival → Poll

-- What is handed to `sendto`. That it fails is only printed.
pub record Sent : Type 0 where
  pub descriptor : ℕ
  pub destination : Endpoint
  pub contents : BytePacketBuffer

abbrev pub sent_to : ℕ → Endpoint → Option BytePacketBuffer → List Sent
sent_to fd client none = []
sent_to fd client (some b) = record { descriptor = fd; destination = client; contents = b } ∷ []

module _ (w : World) (depth : ℕ) where
  -- `set_length` of the address stands outside the `try` block: an exception of it ends the server,
  -- which comes to the same as a fault.
  abbrev pub serve_client : ℕ → List ℕ → Option Endpoint → Task (List Sent)
  serve_client fd bytes none r = fault
  serve_client fd bytes (some client) r =
      (serve w depth bytes >>= λ o. give (sent_to fd client o)) r

  unfoldable pub serve_arrival : ℕ → Arrival → Task (List Sent)
  serve_arrival fd nothing = give []
  serve_arrival fd unreadable = give []
  serve_arrival fd (datagram source address_length bytes) =
      serve_client fd bytes
        (set_address_length address_length (record default_endpoint { storage = source }))

  -- One round: the two descriptors in turn.
  unfoldable pub serve_poll : ℕ → ℕ → Poll → Task (List Sent)
  serve_poll socket4 socket6 poll_failed = give []
  serve_poll socket4 socket6 poll_timeout = give []
  serve_poll socket4 socket6 (ready first other) = do
    xs ← serve_arrival socket4 first
    ys ← serve_arrival socket6 other
    give (xs ++ ys)

  -- The rounds, with what is sent in each.
  unfoldable pub start : ℕ → ℕ → List Poll → Task (List (List Sent))
  start socket4 socket6 [] = give []
  start socket4 socket6 (p ∷ polls) = do
    xs ← serve_poll socket4 socket6 p
    rest ← start socket4 socket6 polls
    give (xs ∷ rest)

-- The port of `main`.
abbrev pub listening_port : ℕ
listening_port = 2053

-- How a run of the program goes: the constructor throws, or the server serves rounds.
pub data Run : Type 0 where
  not_started : List SystemCall → Error → Run
  served : DnsServer → Looked (List (List Sent)) → Run
  without_server : Run

abbrev pub start_server : World → ℕ → List Poll → Opening DnsServer → Run
start_server w depth polls (done log s) =
    served s (start w depth s.socket4 s.socket6 polls s.resolver)
start_server w depth polls (raised log e) = not_started log e
start_server w depth polls cut_off = without_server

-- `main`.
unfoldable pub run_main : InetPton → Option (List ℕ) → Kernel → World → ℕ → List Poll → Run
run_main inet file k w depth polls =
    start_server w depth polls (construct inet file k (pos listening_port))
