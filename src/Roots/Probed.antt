-- ===== src/Roots/Probed.antt =====
-- What a round of probes guarantees, whatever the network answers.
use dns_server_cpp.Buffer.Access.{with_capacity}
use dns_server_cpp.Buffer.NameWire.{qname_bytes}
use dns_server_cpp.Buffer.Safe.{Ensures}
use dns_server_cpp.Buffer.State.{
  Action, BytePacketBuffer, Outcome, default_buffer_size, ok, out_of_bounds, out_of_fuel, throws,
}
use dns_server_cpp.Buffer.Wire.{put_bytes, write_all_fits}
use dns_server_cpp.Common.{
  Bool-cases, List, [], ap, arith, inl, inr, length, not, refl, some, suc, true, ℕ, ◌<◌, ◌==◌, ◌^◌,
  ◌||◌, ◌∙◌, ◌∷◌, ◌≡◌, ◌≢◌,
}
use dns_server_cpp.Header.Defs.{is_response, set_recursion_desired}
use dns_server_cpp.Net.Exchange.{
  Reply, no_answer, read_reply, receive_failed, received, send_failed,
}
use dns_server_cpp.Net.Oversized.{ReplyFits}
use dns_server_cpp.Net.Replies.{read_reply-Ensures, received_from_short}
use dns_server_cpp.Net.Sockets.{SocketAddress, from_ip, socket_eq}
use dns_server_cpp.Packet.Defs.{DnsPacket, set_counts, write_packet}
use dns_server_cpp.Packet.Safe.{IsReadPacket}
use dns_server_cpp.Packet.Wire.{
  IsPacket, packet_bytes, question_if_bytes, records_bytes, write_packet_wire,
}
use dns_server_cpp.Roots.Ask.{mark_answered}
use dns_server_cpp.Roots.Defs.{RootServer, fail, has_status}
use dns_server_cpp.Roots.Probe.{
  ProbeSurroundings, Probed, after_probe, alive, judge_probe_packet, judge_probe_reply, no_change,
  probe_failed_servers, probe_from, probe_packet, probe_result, probe_server, stopped,
}
use dns_server_cpp.Roots.Threads.{written}

-- What a probe may do to a server.
pub data Renewed (s : RootServer) : RootServer → Type 0 where
  as_before : Renewed s s
  revived : (rtt : ℕ) → has_status fail s ≡ true → Renewed s (mark_answered rtt s)

abbrev pub AllRenewed : List RootServer → List RootServer → Type 0
AllRenewed [] [] = Unit
AllRenewed [] (t ∷ ts) = ⊥
AllRenewed (s ∷ ss) [] = ⊥
AllRenewed (s ∷ ss) (t ∷ ts) = Renewed s t × AllRenewed ss ts

probe_packet-IsPacket : (id : ℕ) → id < 2 ^ 16 → IsPacket (probe_packet id)
unfolding probe_packet set_recursion_desired
probe_packet-IsPacket id h = record {
  id_lt = h;
  flags_lt = omega arith;
  question_is = record { name_is = inl refl; type_lt = omega arith; class_lt = omega arith };
  answers_are = tt;
  authorities_are = tt;
  additionals_are = tt;
  answers_lt = omega arith;
  authorities_lt = omega arith;
  additionals_lt = omega arith;
}

length-probe_packet : (id : ℕ) → length (packet_bytes (probe_packet id)) ≡ 17
unfolding packet_bytes probe_packet question_if_bytes records_bytes qname_bytes set_counts
length-probe_packet id = refl

-- The request of a probe fits its buffer: it is written, whatever its ID.
probe_packet-written :
    (id : ℕ)
    → id < 2 ^ 16
    → (b : BytePacketBuffer) × (write_packet (probe_packet id) (with_capacity default_buffer_size)
        ≡ ok tt b)
unfolding with_capacity
probe_packet-written id h =
    let fits =
      write_all_fits (packet_bytes (probe_packet id)) (with_capacity default_buffer_size)
        (omega (arith, length-probe_packet id)) (omega arith) in
    (
      put_bytes (packet_bytes (probe_packet id)) (with_capacity default_buffer_size),
      ap (λ (m : Action (Unit {0})). m (with_capacity default_buffer_size))
            (write_packet_wire (probe_packet id) (probe_packet-IsPacket id h))
          ∙ fits,
    )

judge_probe_packet-goes_on :
    (id rtt : ℕ) (o : Outcome DnsPacket)
    → Ensures IsReadPacket o
    → judge_probe_packet id rtt o ≢ stopped
judge_probe_packet-goes_on id rtt (ok p b) h e =
    elim (Bool-cases (not (p.header.id == id) || not (is_response p.header))) [
      | inl t ↦ cc (simp t at e)
      | inr f ↦ cc (simp f at e)
    ]
judge_probe_packet-goes_on id rtt (throws x b) h e = cc e
judge_probe_packet-goes_on id rtt out_of_bounds h e = elim h [ ]
judge_probe_packet-goes_on id rtt out_of_fuel h e = elim h [ ]

judge_probe_reply-goes_on :
    (id : ℕ) (destination : SocketAddress) (r : Reply)
    → ReplyFits r
    → judge_probe_reply id destination r ≢ stopped
unfolding judge_probe_reply
judge_probe_reply-goes_on id destination send_failed h e = cc e
judge_probe_reply-goes_on id destination no_answer h e = cc e
judge_probe_reply-goes_on id destination receive_failed h e = cc e
judge_probe_reply-goes_on id destination (received source n bytes rtt) h e =
    let fits = received_from_short source n (ground (arith, h)) in
    elim (Bool-cases (socket_eq source destination)) [
      | inl t ↦
          judge_probe_packet-goes_on id rtt (read_reply default_buffer_size bytes)
            (read_reply-Ensures default_buffer_size bytes) (simp (fits, t) at e)
      | inr f ↦ cc (simp (fits, f) at e)
    ]

-- IDs of 16 bits, and replies whose addresses fit their storage.
pub record IsProbing (w : ProbeSurroundings) : Type 0 where
  pub small : (i : ℕ) → w.id i < 2 ^ 16
  pub fits :
      (i : ℕ) (server : SocketAddress) (b : BytePacketBuffer) → ReplyFits (w.network i server b)

module _ (w : ProbeSurroundings) (probing : IsProbing w) where
  probe_result-goes_on : (i : ℕ) (s : RootServer) → probe_result w i s ≢ stopped
  unfolding probe_result
  probe_result-goes_on i s e = elim (Bool-cases (w.opens i)) [
    | inl t ↦
        let (b, written) = probe_packet-written (w.id i) (probing.small i) in
        judge_probe_reply-goes_on (w.id i) (from_ip s.address 53)
          (w.network i (from_ip s.address 53) b) (probing.fits i (from_ip s.address 53) b)
          (simp (t, written) at e)
    | inr f ↦ cc (simp f at e)
  ]

  after_probe-Renewed :
      (r : Probed) (s : RootServer)
      → r ≢ stopped
      → has_status fail s ≡ true
      → (t : RootServer) × (after_probe r s ≡ some t) × Renewed s t
  after_probe-Renewed no_change s n h = (s, refl, as_before)
  after_probe-Renewed stopped s n h = absurd (n refl)
  after_probe-Renewed (alive rtt) s n h = (mark_answered rtt s, refl, revived rtt h)

  probe_server-Renewed :
      (i : ℕ) (s : RootServer) → (t : RootServer) × (probe_server w i s ≡ some t) × Renewed s t
  unfolding probe_server
  probe_server-Renewed i s = elim (Bool-cases (has_status fail s)) [
    | inl h ↦
        let (t, e, r) = after_probe-Renewed (probe_result w i s) s (probe_result-goes_on i s) h in
        (t, rw h e, r)
    | inr f ↦ (s, rw f, as_before)
  ]

  probe_from-AllRenewed :
      (i : ℕ) (servers : List RootServer)
      → (servers' : List RootServer) × (probe_from w i servers ≡ some servers')
        × AllRenewed servers servers'
  unfolding probe_from
  probe_from-AllRenewed i [] = ([], refl, tt)
  probe_from-AllRenewed i (s ∷ servers) =
      let (t, e, r) = probe_server-Renewed i s in
      let (ts, es, rs) = probe_from-AllRenewed (suc i) servers in (t ∷ ts, rw (e, es), (r, rs))

  -- A round of probes with 16-bit IDs always comes to its end, provided that the length that comes with
  -- the address of a reply fits its storage: no exception leaves it, and no access leaves an array. Each server stays as it was, or had failed and is marked as one that
  -- answered.
  pub probe_failed_servers-AllRenewed :
      (servers : List RootServer)
      → (servers' : List RootServer) × (probe_failed_servers w servers ≡ some servers')
        × AllRenewed servers servers'
  unfolding probe_failed_servers
  probe_failed_servers-AllRenewed = probe_from-AllRenewed 0
