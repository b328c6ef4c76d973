-- ===== src/Net/Replies.antt =====
-- What an exchange with a server can come to: never a fault of the program, and an answer only where
-- the server that was asked sent it.
use dns_server_cpp.Buffer.Access.{copy_bytes, with_capacity}
use dns_server_cpp.Buffer.Safe.{
  Any, Ensures, IsValid, set_length-IsSafe, then-IsSafe, with_capacity-IsValid,
}
use dns_server_cpp.Buffer.State.{
  BytePacketBuffer, Outcome, max_buffer_size, ok, out_of_bounds, out_of_fuel, throws, update,
}
use dns_server_cpp.Common.{
  Bool-cases, List, Option, [], ap, arith, false, inl, inr, length, ltb, none, refl, some, subst,
  suc, take, true, zero, ℕ, ◌%◌, ◌<◌, ◌∷◌, ◌≡◌, ◌≢◌, ◌≤◌,
}
use dns_server_cpp.Header.Defs.{is_response}
use dns_server_cpp.Net.Endpoints.{Endpoint, set_address_length, storage_size}
use dns_server_cpp.Net.Exchange.{
  Reply, accepts, answered, exchange, faulted, judge_packet, judge_reply, judge_source,
  judge_written, no_answer, read_reply, receive_failed, received, received_buffer, received_from,
  send_failed,
}
use dns_server_cpp.Net.Sockets.{SocketAddress, socket_eq}
use dns_server_cpp.Packet.Defs.{DnsPacket}
use dns_server_cpp.Packet.Safe.{IsReadPacket, read_packet-IsSafe, write_packet-IsSafe}

copy_bytes_small :
    (xs : List ℕ) (i : ℕ) (a : ℕ → ℕ) → ((j : ℕ) → a j < 256) → (j : ℕ) → copy_bytes xs i a j < 256
copy_bytes_small [] i a h j = h j
copy_bytes_small (x ∷ xs) i a h j =
    copy_bytes_small xs (suc i) (update a i (x % 256)) (λ k. ground (arith, h k)) j

length-take_le : {A : Type 0} (n : ℕ) (xs : List A) → length (take n xs) ≤ n
length-take_le zero xs = omega arith
length-take_le (suc n) [] = omega arith
length-take_le (suc n) (x ∷ xs) = omega (arith, length-take_le n xs)

received_buffer-IsValid : (capacity : ℕ) (bytes : List ℕ) → IsValid (received_buffer capacity bytes)
unfolding received_buffer with_capacity
received_buffer-IsValid capacity bytes = record {
  pos_le = omega arith;
  len_le = omega arith;
  capacity_le = omega arith;
  bytes = copy_bytes_small (take max_buffer_size bytes) 0 (λ _. 0) λ j. omega arith;
}

-- A datagram of any bytes is read to a packet in range or refused with an exception.
pub read_reply-Ensures :
    (capacity : ℕ) (bytes : List ℕ) → Ensures IsReadPacket (read_reply capacity bytes)
unfolding read_reply
read_reply-Ensures capacity bytes =
    (then-IsSafe (set_length-IsSafe (length (take max_buffer_size bytes))) read_packet-IsSafe).run
      (received_buffer capacity bytes) (received_buffer-IsValid capacity bytes)

judge_packet-faultless :
    (request : DnsPacket) (rtt : ℕ) (o : Outcome DnsPacket)
    → Ensures IsReadPacket o
    → judge_packet request rtt o ≢ faulted
judge_packet-faultless request rtt (ok p b) h e = elim (Bool-cases (accepts request p)) [
  | inl t ↦ cc (simp t at e)
  | inr f ↦ cc (simp f at e)
]
judge_packet-faultless request rtt (throws x b) h e = cc e
judge_packet-faultless request rtt out_of_bounds h e = elim h [ ]
judge_packet-faultless request rtt out_of_fuel h e = elim h [ ]

judge_source-faultless :
    (request : DnsPacket) (server : SocketAddress) (bytes : List ℕ) (rtt : ℕ) (o : Option Endpoint)
    → judge_source request server bytes rtt o ≢ faulted
judge_source-faultless request server bytes rtt none e = cc e
judge_source-faultless request server bytes rtt (some source) e =
    elim (Bool-cases (socket_eq source.storage server)) [
      | inl t ↦
          judge_packet-faultless request rtt (read_reply max_buffer_size bytes)
            (read_reply-Ensures max_buffer_size bytes) (simp t at e)
      | inr f ↦ cc (simp f at e)
    ]

judge_reply-faultless :
    (request : DnsPacket) (server : SocketAddress) (r : Reply)
    → judge_reply request server r ≢ faulted
unfolding judge_reply
judge_reply-faultless request server send_failed e = cc e
judge_reply-faultless request server no_answer e = cc e
judge_reply-faultless request server receive_failed e = cc e
judge_reply-faultless request server (received source n bytes rtt) e =
    judge_source-faultless request server bytes rtt (received_from source n) e

judge_written-faultless :
    (request : DnsPacket) (server : SocketAddress) (send : BytePacketBuffer → Reply)
    (o : Outcome (Unit {0}))
    → Ensures Any o
    → judge_written request server send o ≢ faulted
judge_written-faultless request server send (ok u b) h e =
    judge_reply-faultless request server (send b) e
judge_written-faultless request server send (throws x b) h e = cc e
judge_written-faultless request server send out_of_bounds h e = elim h [ ]
judge_written-faultless request server send out_of_fuel h e = elim h [ ]

-- Whatever the request holds and whatever bytes come back, an exchange never leaves an array and
-- always ends.
pub exchange-faultless :
    (request : DnsPacket) (server : SocketAddress) (send : BytePacketBuffer → Reply)
    → exchange request server send ≢ faulted
unfolding exchange
exchange-faultless request server send =
    judge_written-faultless request server send _
      ((write_packet-IsSafe request).run _ (with_capacity-IsValid max_buffer_size))

received_from_long :
    (source : SocketAddress) (n : ℕ) → ltb storage_size n ≡ true → received_from source n ≡ none
unfolding received_from set_address_length
received_from_long source n h = rw h

pub received_from_short :
    (source : SocketAddress) (n : ℕ)
    → ltb storage_size n ≡ false
    → received_from source n ≡ some (record { storage = source; address_length = n })
unfolding received_from set_address_length
received_from_short source n h = rw h

-- A packet that answers a request: a response with its ID.
pub record Answers (request response : DnsPacket) : Type 0 where
  pub is_answer : is_response response.header ≡ true
  pub same_id : response.header.id ≡ request.header.id
  pub in_range : IsReadPacket response

accepts-Answers :
    (request response : DnsPacket)
    → accepts request response ≡ true
    → IsReadPacket response
    → Answers request response
accepts-Answers request response t v = record {
  is_answer = ground (arith, t);
  same_id = ground (arith, t);
  in_range = v;
}

judge_packet-answered :
    (request response : DnsPacket) (rtt rtt' : ℕ) (o : Outcome DnsPacket)
    → Ensures IsReadPacket o
    → judge_packet request rtt' o ≡ answered response rtt
    → Answers request response × ((b : BytePacketBuffer) × (o ≡ ok response b))
judge_packet-answered request response rtt rtt' (ok p b) h e =
    elim (Bool-cases (accepts request p)) [
      | inl t ↦
          let same : p ≡ response = cc (simp t at e) in
          (
            subst (Answers request) same (accepts-Answers request p t h.0),
            (b, ap (λ x. ok x b) same),
          )
      | inr f ↦ cc (simp f at e)
    ]
judge_packet-answered request response rtt rtt' (throws x b) h e = cc e
judge_packet-answered request response rtt rtt' out_of_bounds h e = cc e
judge_packet-answered request response rtt rtt' out_of_fuel h e = cc e

-- The packet was read from a datagram of the server.
abbrev pub CameFrom : SocketAddress → Reply → DnsPacket → Type 0
CameFrom server reply response =
    (bytes : List ℕ) × (source : SocketAddress) × (n rtt : ℕ) × (b : BytePacketBuffer) × (reply
      ≡ received source n bytes rtt)
    × (n ≤ storage_size)
    × (socket_eq source server ≡ true)
    × (read_reply max_buffer_size bytes ≡ ok response b)

judge_reply-answered :
    (request response : DnsPacket) (server : SocketAddress) (rtt : ℕ) (r : Reply)
    → judge_reply request server r ≡ answered response rtt
    → Answers request response × CameFrom server r response
unfolding judge_reply
judge_reply-answered request response server rtt send_failed e = cc e
judge_reply-answered request response server rtt no_answer e = cc e
judge_reply-answered request response server rtt receive_failed e = cc e
judge_reply-answered request response server rtt (received source n bytes rtt') e =
    elim (Bool-cases (ltb storage_size n)) [
      | inl long ↦ cc (simp (received_from_long source n long) at e)
      | inr short ↦
          let fits = received_from_short source n short in
          elim (Bool-cases (socket_eq source server)) [
            | inl t ↦
                let (a, (b, read)) =
                  judge_packet-answered request response rtt rtt' (read_reply max_buffer_size bytes)
                    (read_reply-Ensures max_buffer_size bytes) (simp (fits, t) at e) in
                (a, (bytes, source, n, rtt', b, refl, ground (arith, short), t, read))
            | inr f ↦ cc (simp (fits, f) at e)
          ]
    ]

judge_written-answered :
    (request response : DnsPacket) (server : SocketAddress) (send : BytePacketBuffer → Reply)
    (rtt : ℕ) (o : Outcome (Unit {0}))
    → judge_written request server send o ≡ answered response rtt
    → Answers request response × ((b : BytePacketBuffer) × CameFrom server (send b) response)
judge_written-answered request response server send rtt (ok u b) e =
    let (a, from) = judge_reply-answered request response server rtt (send b) e in (a, (b, from))
judge_written-answered request response server send rtt (throws x b) e = cc e
judge_written-answered request response server send rtt out_of_bounds e = cc e
judge_written-answered request response server send rtt out_of_fuel e = cc e

-- What an exchange takes for an answer is a response with the ID of the request, with every field in
-- range, and it was read from a datagram that came from the address that was asked, with a length that
-- fits the storage of an address.
pub exchange-answered :
    (request response : DnsPacket) (server : SocketAddress) (send : BytePacketBuffer → Reply)
    (rtt : ℕ)
    → exchange request server send ≡ answered response rtt
    → Answers request response × ((b : BytePacketBuffer) × CameFrom server (send b) response)
unfolding exchange
exchange-answered request response server send rtt =
    judge_written-answered request response server send rtt _
