-- ===== src/Server/Serving.antt =====
-- Serving a datagram never faults, and what is sent fits the client's limit.
use dns_server_cpp.Buffer.Access.{with_capacity}
use dns_server_cpp.Buffer.Safe.{Any, Ensures, IsValid, with_capacity-IsValid}
use dns_server_cpp.Buffer.State.{
  BytePacketBuffer, Outcome, default_buffer_size, ok, out_of_bounds, out_of_fuel, throws,
}
use dns_server_cpp.Cache.Runs.{IsCache}
use dns_server_cpp.Common.{
  List, Option, arith, has_value, length, none, not, some, ℕ, ◌<◌, ◌||◌, ◌≡◌,
}
use dns_server_cpp.Header.Defs.{is_response}
use dns_server_cpp.Net.Exchange.{read_reply}
use dns_server_cpp.Net.Replies.{read_reply-Ensures}
use dns_server_cpp.Packet.Defs.{DnsPacket, get_edns_info}
use dns_server_cpp.Packet.RoundTrip.{packet_overflow}
use dns_server_cpp.Packet.Safe.{IsReadPacket, write_packet-IsSafe}
use dns_server_cpp.Packet.Wire.{IsPacket, packet_bytes}
use dns_server_cpp.Resolver.Answered.{
  Ends, IsSound, KeepsRoots, bind-IsSound, give-IsSound, if-IsSound,
}
use dns_server_cpp.Resolver.Replies.{lookup-IsSound}
use dns_server_cpp.Resolver.Task.{
  Looked, Resolver, Task, World, continue_with, fault, found, give, thrown, too_deep, ◌>>=◌,
}
use dns_server_cpp.Server.Defs.{
  answer_packet, capacity_for, caught, complete_response, send_response, sent_buffer, serve,
  serve_read,
}

-- A buffer that is sent is well-formed.
abbrev pub IsSent : Option BytePacketBuffer → Type 0
IsSent none = Unit
IsSent (some b) = IsValid b

send_response-IsSound :
    (packet response : DnsPacket) → IsSound IsSent (send_response packet response)
unfolding send_response
send_response-IsSound packet response = record {
  run = λ r v.
      go _ r v
        ((write_packet-IsSafe (complete_response packet response)).run _ (with_capacity-IsValid _));
}
  where
    go :
        (o : Outcome (Unit {0})) (r : Resolver)
        → IsCache r.cache
        → Ensures Any o
        → Ends IsSent (sent_buffer o r)
    go (ok u b) r v h = (h.1, v)
    go (throws e b) r v h = (tt, v)
    go out_of_bounds r v h = elim h [ ]
    go out_of_fuel r v h = elim h [ ]

answer_packet-IsSound :
    (w : World) (depth : ℕ) (packet : DnsPacket)
    → KeepsRoots w
    → IsSound IsSent (answer_packet w depth packet)
unfolding answer_packet
answer_packet-IsSound w depth packet keeps =
    if-IsSound (is_response packet.header || not (has_value packet.question))
      (λ _. give-IsSound none tt)
      (λ _.
        bind-IsSound (lookup-IsSound w depth packet keeps)
          λ response _. send_response-IsSound packet response)

serve_read-IsSound :
    (w : World) (depth : ℕ) (o : Outcome DnsPacket)
    → KeepsRoots w
    → Ensures IsReadPacket o
    → IsSound IsSent (serve_read w depth o)
serve_read-IsSound w depth (ok packet b) keeps h = answer_packet-IsSound w depth packet keeps
serve_read-IsSound w depth (throws e b) keeps h = give-IsSound none tt
serve_read-IsSound w depth out_of_bounds keeps h = elim h [ ]
serve_read-IsSound w depth out_of_fuel keeps h = elim h [ ]

-- What holds when the handling of datagrams ends: as for a lookup, and no exception leaves it.
abbrev pub Serves : {A : Type 0} → (A → Type 0) → Looked A → Type 0
Serves Q (found a r) = Q a × IsCache r.cache
Serves Q (thrown r) = ⊥
Serves Q fault = ⊥
Serves Q too_deep = Unit

pub record IsServed {A : Type 0} (Q : A → Type 0) (m : Task A) : Type 0 where
  pub run : (r : Resolver) → IsCache r.cache → Serves Q (m r)

pub give-IsServed : {A : Type 0} {Q : A → Type 0} (a : A) → Q a → IsServed Q (give a)
give-IsServed a q = record { run = λ r v. (q, v) }

module _ {A B : Type 0} {Q : A → Type 0} {R : B → Type 0} where
  Serves-bind :
      (o : Looked A) (f : A → Task B)
      → Serves Q o
      → ((a : A) → Q a → IsServed R (f a))
      → Serves R (continue_with o f)
  Serves-bind (found a r) f h k = (k a h.0).run r h.1
  Serves-bind (thrown r) f h k = elim h [ ]
  Serves-bind fault f h k = elim h [ ]
  Serves-bind too_deep f h k = tt

  pub bind-IsServed :
      {m : Task A} {f : A → Task B}
      → IsServed Q m
      → ((a : A) → Q a → IsServed R (f a))
      → IsServed R (m >>= f)
  bind-IsServed {m} {f} s k = record { run = λ r v. Serves-bind (m r) f (s.run r v) k }

-- The `catch` turns an exception into nothing that is sent.
caught-Serves : (o : Looked (Option BytePacketBuffer)) → Ends IsSent o → Serves IsSent (caught o)
caught-Serves (found a r) h = h
caught-Serves (thrown r) h = (tt, h)
caught-Serves fault h = h
caught-Serves too_deep h = tt

-- A datagram of any bytes is served without a fault of the program, and no exception leaves it,
-- whatever the network answers, as long as the surroundings of the root servers' manager keep the
-- addresses of its table: what is sent stands in a well-formed buffer, and the cache keeps its
-- invariant. Of a lookup that is cut off at its depth nothing is said.
pub serve-IsServed :
    (w : World) (depth : ℕ) (bytes : List ℕ) → KeepsRoots w → IsServed IsSent (serve w depth bytes)
unfolding serve
serve-IsServed w depth bytes keeps = record {
  run = λ r v. caught-Serves _ (
      (serve_read-IsSound w depth (read_reply default_buffer_size bytes) keeps
          (read_reply-Ensures default_buffer_size bytes)).run
        r v);
}

-- A response whose fields are in range and that is larger than the client's limit is dropped:
-- nothing is sent.
pub send_response-dropped :
    (packet response : DnsPacket) (r : Resolver)
    → IsPacket (complete_response packet response)
    → (with_capacity (capacity_for (get_edns_info packet))).max_capacity
      < length (packet_bytes (complete_response packet response))
    → send_response packet response r ≡ found none r
unfolding send_response with_capacity
send_response-dropped packet response r v large =
    let (b, e) =
      packet_overflow (complete_response packet response)
        (with_capacity (capacity_for (get_edns_info packet))) v (with_capacity-IsValid _)
        (omega arith) (omega (arith, large)) in
    rw e
