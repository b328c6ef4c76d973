-- ===== src/Net/Received.antt =====
-- A datagram with the wire form of a packet is read as the packet.
use dns_server_cpp.Buffer.Access.{copy_bytes, set_length, with_capacity}
use dns_server_cpp.Buffer.Reading.{Agrees, Holds, Reads}
use dns_server_cpp.Buffer.State.{Action, BytePacketBuffer, at, max_buffer_size, ok, update, ◌>>◌}
use dns_server_cpp.Common.{
  All, List, [], ap, arith, false, length, ltb, min, refl, suc, take, zero, ℕ, ◌%◌, ◌+◌, ◌<◌, ◌∙◌,
  ◌∷◌, ◌≡◌, ◌≤◌,
}
use dns_server_cpp.Net.Exchange.{read_reply, received_buffer}
use dns_server_cpp.Packet.Defs.{DnsPacket}
use dns_server_cpp.Packet.RoundTrip.{packet_bytes-IsBytes}
use dns_server_cpp.Packet.Wire.{IsPacket, packet_bytes, read_packet-Reads, sent_packet}

take_all {ℓ} : {A : Type ℓ} (n : ℕ) (xs : List A) → length xs ≤ n → take n xs ≡ xs
take_all zero [] h = refl
take_all zero (x ∷ xs) h = elim h [ ]
take_all (suc n) [] h = refl
take_all (suc n) (x ∷ xs) h = ap (λ ys. x ∷ ys) (take_all n xs (omega (arith, h)))

copy_bytes_before : (xs : List ℕ) (i : ℕ) (a : ℕ → ℕ) (j : ℕ) → j < i → copy_bytes xs i a j ≡ a j
copy_bytes_before [] i a j h = refl
copy_bytes_before (x ∷ xs) i a j h =
    copy_bytes_before xs (suc i) (update a i (x % 256)) j (omega (arith, h)) ∙ ground (arith, h)

copy_bytes-Agrees :
    (xs : List ℕ) (i : ℕ) (a : ℕ → ℕ) → All (λ x. x < 256) xs → Agrees (copy_bytes xs i a) i xs
copy_bytes-Agrees [] i a h = tt
copy_bytes-Agrees (x ∷ xs) i a h =
    let next : i + 1 ≡ suc i = omega arith in
    (
      copy_bytes_before xs (suc i) (update a i (x % 256)) i (omega arith) ∙ ground (arith, h.0),
      rw next (copy_bytes-Agrees xs (suc i) (update a i (x % 256)) h.1),
    )

-- What a reader of a list of bytes makes of a datagram of them.
received-Reads :
    {A : Type 0} {m : Action A} {xs : List ℕ} {a : A} (capacity : ℕ)
    → Reads m xs a
    → All (λ x. x < 256) xs
    → length xs ≤ max_buffer_size
    → (b : BytePacketBuffer) × ((set_length (length (take max_buffer_size xs)) >> m)
          (received_buffer capacity xs)
        ≡ ok a b)
unfolding set_length received_buffer with_capacity
received-Reads {m} {xs} {a} capacity r small fits =
    let whole = take_all max_buffer_size xs fits in
    let inside : ltb max_buffer_size (length xs) ≡ false = ground (arith, fits) in
    let b : BytePacketBuffer = record {
      buff = copy_bytes xs 0 (λ _. 0);
      pos = 0;
      len = length xs;
      max_capacity = min capacity max_buffer_size;
    } in
    let held : Holds xs b = record {
      fits = omega arith;
      len_le = fits;
      here = copy_bytes-Agrees xs 0 (λ _. 0) small;
    } in
    (at b (0 + length xs), rw (whole, inside) (r.run b held))

-- A packet whose fields are in range, received in a datagram of its wire form that fits the array, is
-- read as its receiver reads it.
pub read_reply-sent :
    (capacity : ℕ) (p : DnsPacket)
    → IsPacket p
    → length (packet_bytes p) ≤ max_buffer_size
    → (b : BytePacketBuffer) × (read_reply capacity (packet_bytes p) ≡ ok (sent_packet p) b)
unfolding read_reply
read_reply-sent capacity p v fits =
    received-Reads capacity (read_packet-Reads p v) (packet_bytes-IsBytes p v) fits
