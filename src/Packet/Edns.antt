-- ===== src/Packet/Edns.antt =====
-- What EDNS promises: the limits that `get_edns_info` puts on the size that a client names, and the
-- OPT record that `create_additional_opt_record` adds.
use dns_server_cpp.Buffer.State.{max_buffer_size}
use dns_server_cpp.Common.{
  Bool, List, Option-cases, [], ap, arith, bit_and, bit_or, false, if◌then◌else◌, inl, inr, map,
  max, min, none, refl, some, some-injective, subst, sym, true, ℕ, ◌*◌, ◌++◌, ◌+◌, ◌/◌, ◌<◌, ◌^◌,
  ◌∙◌, ◌∷◌, ◌≡◌, ◌≤◌,
}
use dns_server_cpp.Common.Bits.{and_ones, or_shift}
use dns_server_cpp.Packet.Defs.{
  DnsPacket, EdnsInfo, create_additional_opt_record, edns_in, edns_of, found_or, get_edns_info,
  opt_additional, opt_ttl, set_counts,
}
use dns_server_cpp.Packet.Wire.{sent_packet}
use dns_server_cpp.Record.Defs.{DnsRecord, OptRecord, get_opt_record}
use dns_server_cpp.Record.Read.{opt_of}
use dns_server_cpp.Record.Reading.{IsRecord, as_read}

abbrev pub IsBounded : EdnsInfo → Type 0
IsBounded i =
    (512 ≤ i.max_payload_size) × (i.max_payload_size ≤ max_buffer_size) × (i.edns_present ≡ true)

edns_of-IsBounded : (o : OptRecord) → IsBounded (edns_of o)
unfolding edns_of
edns_of-IsBounded o = (omega arith, omega arith, refl)

edns_in-bounds : (rs : List DnsRecord) (i : EdnsInfo) → edns_in rs ≡ some i → IsBounded i
unfolding edns_in
edns_in-bounds [] i e = cc e
edns_in-bounds (r ∷ rs) i e = elim (Option-cases (get_opt_record r)) [
  | inl f ↦ edns_in-bounds rs i (simp f at e)
  | inr (o, f) ↦ subst IsBounded (some-injective (simp f at e)) (edns_of-IsBounded o)
]

-- Whatever size the OPT record of a packet names, the size that the server uses for it lies between
-- 512 and the capacity of a buffer, 1232.
pub get_edns_info-bounds : (p : DnsPacket) (i : EdnsInfo) → get_edns_info p ≡ some i → IsBounded i
unfolding get_edns_info
get_edns_info-bounds p i e = edns_in-bounds p.additionals i e

opt_ttl_sum :
    (e v : ℕ) (d : Bool)
    → v < 2 ^ 8
    → opt_ttl e v d ≡ (e * 2 ^ 8 + v) * 2 ^ 16 + (if d then 0x8000 else 0)
unfolding opt_ttl
opt_ttl_sum e v d h =
    let high : bit_or (e * 2 ^ 24) (v * 2 ^ 16) ≡ (e * 2 ^ 8 + v) * 2 ^ 16 =
      omega (arith, or_shift 24 e (v * 2 ^ 16) (omega arith)) in
    let low : (if d then 0x8000 else 0) < 2 ^ 16 = ground arith in
    rw high (or_shift 16 (e * 2 ^ 8 + v) (if d then 0x8000 else 0) low)

-- The fields of an OPT record are packed into its TTL without loss.
opt_ttl_fields :
    (u e v : ℕ) (d : Bool)
    → e < 2 ^ 8
    → v < 2 ^ 8
    → opt_of u (opt_ttl e v d) [] ≡ record {
      udp_payload_size = u;
      extended_rcode = e;
      version = v;
      dnssec_ok = d;
      options_raw = [];
    }
unfolding opt_of
opt_ttl_fields u e v true h k =
    let sum = opt_ttl_sum e v true k in
    let high : bit_and (opt_ttl e v true / 2 ^ 24) 0xFF ≡ e =
      omega (arith, sum, and_ones 8 (opt_ttl e v true / 2 ^ 24)) in
    let low : bit_and (opt_ttl e v true / 2 ^ 16) 0xFF ≡ v =
      omega (arith, sum, and_ones 8 (opt_ttl e v true / 2 ^ 16)) in
    let flags : bit_and (opt_ttl e v true) 0xFFFF ≡ 0x8000 =
      omega (arith, sum, and_ones 16 (opt_ttl e v true)) in
    rw (high, low, flags)
opt_ttl_fields u e v false h k =
    let sum = opt_ttl_sum e v false k in
    let high : bit_and (opt_ttl e v false / 2 ^ 24) 0xFF ≡ e =
      omega (arith, sum, and_ones 8 (opt_ttl e v false / 2 ^ 24)) in
    let low : bit_and (opt_ttl e v false / 2 ^ 16) 0xFF ≡ v =
      omega (arith, sum, and_ones 8 (opt_ttl e v false / 2 ^ 16)) in
    let flags : bit_and (opt_ttl e v false) 0xFFFF ≡ 0 =
      omega (arith, sum, and_ones 16 (opt_ttl e v false)) in
    rw (high, low, flags)

-- The OPT record that `create_additional_opt_record` makes from 16-bit and 8-bit arguments is one
-- that a packet can carry: its class and TTL hold the fields that reading it gives.
pub opt_additional-IsRecord :
    (u e v : ℕ) (d : Bool) → u < 2 ^ 16 → e < 2 ^ 8 → v < 2 ^ 8 → IsRecord (opt_additional u e v d)
unfolding opt_additional
opt_additional-IsRecord u e v d hu he hv =
    let word : opt_ttl e v d < 2 ^ 32 = ground (arith, opt_ttl_sum e v d hv) in
    record {
      name_is = inl refl;
      type_lt = omega arith;
      class_lt = hu;
      ttl_lt = word;
      data_is = (omega arith, tt);
      describes = (refl, sym (opt_ttl_fields u e v d he hv));
      size_lt = omega arith;
    }

edns_in-append :
    (rs : List DnsRecord) (r : DnsRecord)
    → edns_in rs ≡ none
    → edns_in (rs ++ (r ∷ [])) ≡ edns_in (r ∷ [])
unfolding edns_in
edns_in-append [] r e = refl
edns_in-append (x ∷ rs) r e = elim (Option-cases (get_opt_record x)) [
  | inl f ↦ rw f (edns_in-append rs r (simp f at e))
  | inr (o, f) ↦ cc (simp f at e)
]

pub edns_in-as_read : (rs : List DnsRecord) → edns_in (map as_read rs) ≡ edns_in rs
unfolding edns_in get_opt_record
edns_in-as_read [] = refl
edns_in-as_read (r ∷ rs) = ap (found_or (get_opt_record r)) (edns_in-as_read rs)

-- The EDNS of a packet without EDNS to which `create_additional_opt_record` adds a record, with the names
-- and lengths as they are read.
pub get_edns_info-create :
    (p : DnsPacket) (u e v : ℕ) (d : Bool)
    → get_edns_info p ≡ none
    → get_edns_info (sent_packet (create_additional_opt_record u e v d p))
      ≡ some (record {
        edns_present = true;
        max_payload_size = min (max 512 u) 1232;
        dnssec_ok = d;
        version = v;
      })
unfolding get_edns_info create_additional_opt_record sent_packet set_counts edns_in edns_of
    opt_additional get_opt_record
get_edns_info-create p u e v d h =
    edns_in-as_read (p.additionals ++ (opt_additional u e v d ∷ []))
    ∙ edns_in-append p.additionals (opt_additional u e v d) h
