-- ===== src/Net/Exchange.antt =====
-- One question to one server, as `AskRootServer` and `QueryNameServer` ask it. The system calls are
-- parameters: whether a socket opens, and what `sendto`, `poll` and `recvfrom` come to.
use dns_server_cpp.Buffer.Access.{copy_bytes, set_length, with_capacity}
use dns_server_cpp.Buffer.State.{
  BytePacketBuffer, Outcome, max_buffer_size, ok, out_of_bounds, out_of_fuel, throws, ◌>>◌,
}
use dns_server_cpp.Common.{
  Bool, List, Option, false, if◌then◌else◌, length, none, not, some, take, ℕ, ◌==◌, ◌||◌,
}
use dns_server_cpp.Header.Defs.{empty_header, is_response, set_recursion_desired}
use dns_server_cpp.Net.Endpoints.{Endpoint, default_endpoint, set_address_length}
use dns_server_cpp.Net.Sockets.{SocketAddress, socket_eq}
use dns_server_cpp.Packet.Defs.{
  DnsPacket, create_additional_opt_record, empty_packet, read_packet, write_packet,
}

-- What the system calls come to: `sendto` sent less than the request, `poll` timed out or failed,
-- `recvfrom` failed, or a datagram came: the address that it came from, the length that `recvfrom` gives
-- the address, the bytes, and the milliseconds that passed.
pub data Reply : Type 0 where
  send_failed no_answer receive_failed : Reply
  received : SocketAddress → ℕ → List ℕ → ℕ → Reply

-- The request: the question and ID of the query, no recursion, and an OPT record of its own.
unfoldable pub make_request : DnsPacket → DnsPacket
make_request query = create_additional_opt_record 1232 0 0 false (record empty_packet {
  header = set_recursion_desired false (record empty_header { id = query.header.id });
  question = query.question;
})

-- A buffer of a capacity behind `recvfrom`, which cuts a datagram off at the size of the array.
unfoldable pub received_buffer : ℕ → List ℕ → BytePacketBuffer
received_buffer capacity bytes =
    let fresh = with_capacity capacity in
    record fresh { buff = copy_bytes (take max_buffer_size bytes) 0 fresh.buff }

-- `set_length` with the count that `recvfrom` returned, then `DnsPacket::read`.
unfoldable pub read_reply : ℕ → List ℕ → Outcome DnsPacket
read_reply capacity bytes =
    (set_length (length (take max_buffer_size bytes)) >> read_packet)
      (received_buffer capacity bytes)

-- The address of a sender behind `set_length`; nothing where that throws.
unfoldable pub received_from : SocketAddress → ℕ → Option Endpoint
unfolding set_address_length
received_from source n = set_address_length n (record default_endpoint { storage = source })

-- What one exchange comes to: nothing that says something of the server, a failure of the server, a
-- response after so many milliseconds, an exception that leaves the caller, or a fault of the program
-- itself.
pub data Verdict : Type 0 where
  no_verdict failed threw : Verdict
  answered : DnsPacket → ℕ → Verdict
  faulted : Verdict

-- A reply is a response to the request with its ID.
abbrev pub accepts : DnsPacket → DnsPacket → Bool
accepts request response =
    not (not (is_response response.header) || not (response.header.id == request.header.id))

abbrev pub judge_packet : DnsPacket → ℕ → Outcome DnsPacket → Verdict
judge_packet request rtt (ok response b) =
    if accepts request response then answered response rtt else failed
judge_packet request rtt (throws e b) = failed
judge_packet request rtt out_of_bounds = faulted
judge_packet request rtt out_of_fuel = faulted

-- What follows `set_length` of the address, which stands outside the `try` block.
abbrev pub judge_source : DnsPacket → SocketAddress → List ℕ → ℕ → Option Endpoint → Verdict
judge_source request server bytes rtt none = threw
judge_source request server bytes rtt (some source) =
    if not (socket_eq source.storage server)
    then no_verdict
    else judge_packet request rtt (read_reply max_buffer_size bytes)

unfoldable pub judge_reply : DnsPacket → SocketAddress → Reply → Verdict
judge_reply request server send_failed = failed
judge_reply request server no_answer = failed
judge_reply request server receive_failed = failed
judge_reply request server (received source n bytes rtt) =
    judge_source request server bytes rtt (received_from source n)

-- What follows the write of the request.
abbrev pub judge_written :
    DnsPacket → SocketAddress → (BytePacketBuffer → Reply) → Outcome (Unit {0}) → Verdict
judge_written request server send (ok u b) = judge_reply request server (send b)
judge_written request server send (throws e b) = no_verdict
judge_written request server send out_of_bounds = faulted
judge_written request server send out_of_fuel = faulted

-- Write the request, send it, and judge what comes back.
unfoldable pub exchange : DnsPacket → SocketAddress → (BytePacketBuffer → Reply) → Verdict
exchange request server send =
    judge_written request server send (write_packet request (with_capacity max_buffer_size))
