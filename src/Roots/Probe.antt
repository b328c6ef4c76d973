-- ===== src/Roots/Probe.antt =====
-- `ProbeFailedServers`: one question to every server that failed (src/RootServerManager.cxx).
use dns_server_cpp.Buffer.Access.{with_capacity}
use dns_server_cpp.Buffer.State.{
  BytePacketBuffer, Outcome, default_buffer_size, ok, out_of_bounds, out_of_fuel, throws,
}
use dns_server_cpp.Common.{
  Bool, List, Option, [], false, if◌then◌else◌, none, not, some, suc, ℕ, ◌==◌, ◌||◌, ◌∷◌,
}
use dns_server_cpp.Header.Defs.{empty_header, is_response, set_recursion_desired}
use dns_server_cpp.Net.Endpoints.{Endpoint}
use dns_server_cpp.Net.Exchange.{
  Reply, no_answer, read_reply, receive_failed, received, received_from, send_failed,
}
use dns_server_cpp.Net.Sockets.{SocketAddress, from_ip, socket_eq}
use dns_server_cpp.Packet.Defs.{DnsPacket, empty_packet, set_question, write_packet}
use dns_server_cpp.Question.Defs.{make_question, soa_type}
use dns_server_cpp.Roots.Ask.{mark_answered}
use dns_server_cpp.Roots.Defs.{RootServer, fail, has_status}

-- The surroundings of a probe, for the server of each index: the ID that is drawn, whether a socket
-- opens, and what comes of the datagram.
pub record ProbeSurroundings : Type 0 where
  pub id : ℕ → ℕ
  pub opens : ℕ → Bool
  pub network : ℕ → SocketAddress → BytePacketBuffer → Reply

-- The root's SOA record is asked for.
unfoldable pub probe_packet : ℕ → DnsPacket
probe_packet id =
    set_question (make_question (b'.' ∷ []) soa_type) (record empty_packet {
      header = set_recursion_desired false (record empty_header { id = id });
    })

-- What a probe does with a server: it stays as it is, answers after so many milliseconds, or the
-- thread ends by a fault or an exception that nothing catches.
pub data Probed : Type 0 where
  no_change stopped : Probed
  alive : ℕ → Probed

abbrev pub judge_probe_packet : ℕ → ℕ → Outcome DnsPacket → Probed
judge_probe_packet id rtt (ok response b) =
    if not (response.header.id == id) || not (is_response response.header)
    then no_change
    else alive rtt
judge_probe_packet id rtt (throws e b) = no_change
judge_probe_packet id rtt out_of_bounds = stopped
judge_probe_packet id rtt out_of_fuel = stopped

-- What follows `set_length` of the address, which stands outside the `try` block.
abbrev pub judge_probe_source : ℕ → SocketAddress → List ℕ → ℕ → Option Endpoint → Probed
judge_probe_source id destination bytes rtt none = stopped
judge_probe_source id destination bytes rtt (some responder) =
    if not (socket_eq responder.storage destination)
    then no_change
    else judge_probe_packet id rtt (read_reply default_buffer_size bytes)

unfoldable pub judge_probe_reply : ℕ → SocketAddress → Reply → Probed
judge_probe_reply id destination send_failed = no_change
judge_probe_reply id destination no_answer = no_change
judge_probe_reply id destination receive_failed = no_change
judge_probe_reply id destination (received responder n bytes rtt) =
    judge_probe_source id destination bytes rtt (received_from responder n)

-- The write of the request stands outside the `try` block.
abbrev pub judge_probe_written :
    ℕ → SocketAddress → (BytePacketBuffer → Reply) → Outcome (Unit {0}) → Probed
judge_probe_written id destination send (ok u b) = judge_probe_reply id destination (send b)
judge_probe_written id destination send (throws e b) = stopped
judge_probe_written id destination send out_of_bounds = stopped
judge_probe_written id destination send out_of_fuel = stopped

abbrev pub after_probe : Probed → RootServer → Option RootServer
after_probe no_change s = some s
after_probe stopped s = none
after_probe (alive rtt) s = some (mark_answered rtt s)

-- The server with the rest of the table, unless the thread ended at it or later.
abbrev pub cons_if : Option RootServer → Option (List RootServer) → Option (List RootServer)
cons_if none rest = none
cons_if (some s) none = none
cons_if (some s) (some servers) = some (s ∷ servers)

module _ (w : ProbeSurroundings) where
  unfoldable pub probe_result : ℕ → RootServer → Probed
  probe_result i s =
      let destination = from_ip s.address 53 in
      if not (w.opens i)
      then no_change
      else judge_probe_written (w.id i) destination (w.network i destination)
          (write_packet (probe_packet (w.id i)) (with_capacity default_buffer_size))

  unfoldable pub probe_server : ℕ → RootServer → Option RootServer
  probe_server i s = if not (has_status fail s) then some s else after_probe (probe_result i s) s

  -- The loop over the table, from an index on; nothing where the thread ended.
  unfoldable pub probe_from : ℕ → List RootServer → Option (List RootServer)
  probe_from i [] = some []
  probe_from i (s ∷ servers) =
      let rest = probe_from (suc i) servers in cons_if (probe_server i s) rest

  unfoldable pub probe_failed_servers : List RootServer → Option (List RootServer)
  probe_failed_servers servers = probe_from 0 servers
