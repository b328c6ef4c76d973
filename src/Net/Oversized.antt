-- ===== src/Net/Oversized.antt =====
-- The length that comes with the address of a reply: where it does not fit, an exception leaves the
-- exchange.
use dns_server_cpp.Buffer.State.{BytePacketBuffer, Outcome, ok, out_of_bounds, out_of_fuel, throws}
use dns_server_cpp.Common.{Bool-cases, List, arith, inl, inr, ltb, refl, ℕ, ◌<◌, ◌≡◌, ◌≢◌, ◌≤◌}
use dns_server_cpp.Net.Endpoints.{storage_size}
use dns_server_cpp.Net.Exchange.{
  Reply, accepts, exchange, judge_packet, judge_reply, judge_written, no_answer, receive_failed,
  received, send_failed, threw,
}
use dns_server_cpp.Net.Replies.{received_from_short}
use dns_server_cpp.Net.Sockets.{SocketAddress, socket_eq}
use dns_server_cpp.Packet.Defs.{DnsPacket}

-- The length that comes with the address of a reply fits its storage, as that of `recvfrom` does.
abbrev pub ReplyFits : Reply → Type 0
ReplyFits send_failed = Unit
ReplyFits no_answer = Unit
ReplyFits receive_failed = Unit
ReplyFits (received source n bytes rtt) = n ≤ storage_size

-- The reply came with a length that does not fit the storage of an address.
abbrev pub IsOversized : Reply → Type 0
IsOversized reply =
    (source : SocketAddress) × (n rtt : ℕ) × (bytes : List ℕ) × (reply
      ≡ received source n bytes rtt)
    × (storage_size < n)

judge_packet-caught :
    (request : DnsPacket) (rtt : ℕ) (o : Outcome DnsPacket) → judge_packet request rtt o ≢ threw
judge_packet-caught request rtt (ok p b) e = elim (Bool-cases (accepts request p)) [
  | inl t ↦ cc (simp t at e)
  | inr f ↦ cc (simp f at e)
]
judge_packet-caught request rtt (throws x b) e = cc e
judge_packet-caught request rtt out_of_bounds e = cc e
judge_packet-caught request rtt out_of_fuel e = cc e

judge_reply-threw :
    (request : DnsPacket) (server : SocketAddress) (r : Reply)
    → judge_reply request server r ≡ threw
    → IsOversized r
unfolding judge_reply
judge_reply-threw request server send_failed e = cc e
judge_reply-threw request server no_answer e = cc e
judge_reply-threw request server receive_failed e = cc e
judge_reply-threw request server (received source n bytes rtt) e =
    elim (Bool-cases (ltb storage_size n)) [
      | inl long ↦ (source, n, rtt, bytes, refl, ground (arith, long))
      | inr short ↦
          let fits = received_from_short source n short in
          elim (Bool-cases (socket_eq source server)) [
            | inl t ↦ absurd (judge_packet-caught request rtt _ (simp (fits, t) at e))
            | inr f ↦ cc (simp (fits, f) at e)
          ]
    ]

judge_written-threw :
    (request : DnsPacket) (server : SocketAddress) (send : BytePacketBuffer → Reply)
    (o : Outcome (Unit {0}))
    → judge_written request server send o ≡ threw
    → (b : BytePacketBuffer) × IsOversized (send b)
judge_written-threw request server send (ok u b) e =
    (b, judge_reply-threw request server (send b) e)
judge_written-threw request server send (throws x b) e = cc e
judge_written-threw request server send out_of_bounds e = cc e
judge_written-threw request server send out_of_fuel e = cc e

-- An exception leaves an exchange only where a reply is oversized.
pub exchange-threw :
    (request : DnsPacket) (server : SocketAddress) (send : BytePacketBuffer → Reply)
    → exchange request server send ≡ threw
    → (b : BytePacketBuffer) × IsOversized (send b)
unfolding exchange
exchange-threw request server send = judge_written-threw request server send _
