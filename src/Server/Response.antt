-- ===== src/Server/Response.antt =====
-- What the client sees of a response.
use dns_server_cpp.Common.{
  All, Bool-cases, List, Option, Option-cases, [], ap, arith, false, has_value, inl, inr, max, min,
  none, not, refl, some, true, ◌==◌, ◌||◌, ◌∙◌, ◌∷◌, ◌≡◌,
}
use dns_server_cpp.Header.Defs.{DnsHeader, is_response}
use dns_server_cpp.Header.Flags.{FlagView, view_flags}
use dns_server_cpp.Packet.Defs.{
  DnsPacket, EdnsInfo, create_additional_opt_record, edns_in, get_edns_info, set_counts,
}
use dns_server_cpp.Packet.Edns.{
  IsBounded, edns_in-as_read, get_edns_info-bounds, get_edns_info-create,
}
use dns_server_cpp.Packet.Wire.{sent_packet}
use dns_server_cpp.Question.Defs.{DnsQuestion, opt_type}
use dns_server_cpp.Record.Defs.{DnsRecord, get_opt_record}
use dns_server_cpp.Resolver.Defs.{finalize_header}
use dns_server_cpp.Resolver.Final.{RepliesTo, finalize_header-id, finalize_header-view}
use dns_server_cpp.Server.Defs.{
  add_client_opt, complete_response, make_server_failure, response_or_failure, strip_opt,
}

replies_lem :
    (query p : DnsPacket) (h : DnsHeader)
    → p.header ≡ finalize_header query.header h
    → RepliesTo query p
unfolding view_flags
replies_lem query p h e =
    let view = ap view_flags e ∙ finalize_header-view query.header h in
    record {
      same_id = ap (λ (x : DnsHeader). x.id) e ∙ finalize_header-id query.header h;
      is_reply = ap (λ (v : FlagView). v.response) view;
      is_available = ap (λ (v : FlagView). v.available) view;
      is_desired = ap (λ (v : FlagView). v.desired) view;
      no_authority = ap (λ (v : FlagView). v.authoritative) view;
    }

add_client_opt-header :
    (e : Option EdnsInfo) (p : DnsPacket) → (add_client_opt e p).header ≡ p.header
unfolding create_additional_opt_record
add_client_opt-header none p = refl
add_client_opt-header (some e) p = refl

add_client_opt-question :
    (e : Option EdnsInfo) (p : DnsPacket) → (add_client_opt e p).question ≡ p.question
unfolding create_additional_opt_record
add_client_opt-question none p = refl
add_client_opt-question (some e) p = refl

response_or_failure-question :
    (packet response : DnsPacket) (q : DnsQuestion)
    → packet.question ≡ some q
    → has_value (response_or_failure packet response).question ≡ true
unfolding response_or_failure make_server_failure
response_or_failure-question packet response q asked =
    elim (Bool-cases (not (is_response response.header) || not (has_value response.question))) [
      | inl t ↦ rw (t, asked)
      | inr f ↦ rw f (ground (arith, f))
    ]

-- Whatever the lookup returned, what a client gets for a query with a question is a reply to it,
-- and carries a question.
pub complete_response-RepliesTo :
    (packet response : DnsPacket) (q : DnsQuestion)
    → packet.question ≡ some q
    → RepliesTo packet (complete_response packet response)
      × (has_value (complete_response packet response).question ≡ true)
unfolding complete_response
complete_response-RepliesTo packet response q asked = (
  replies_lem packet _ (response_or_failure packet response).header
      (add_client_opt-header (get_edns_info packet) _),
  ap has_value (add_client_opt-question (get_edns_info packet) _)
      ∙ response_or_failure-question packet response q asked,
)

-- The type of a record says whether it is an OPT record, as reading a record makes it.
abbrev pub IsTyped : DnsRecord → Type 0
IsTyped r = (r.type == opt_type) ≡ has_value (get_opt_record r)

strip_opt-no_edns : (rs : List DnsRecord) → All IsTyped rs → edns_in (strip_opt rs) ≡ none
unfolding strip_opt edns_in
strip_opt-no_edns [] h = refl
strip_opt-no_edns (r ∷ rs) h = elim (Option-cases (get_opt_record r)) [
  | inl e ↦
      let other : (r.type == opt_type) ≡ false = h.0 ∙ ap has_value e in
      rw (other, e) (strip_opt-no_edns rs h.1)
  | inr (o, e) ↦
      let opt : (r.type == opt_type) ≡ true = h.0 ∙ ap has_value e in
      rw opt (strip_opt-no_edns rs h.1)
]

-- The EDNS of a response to a client: none for a client without EDNS, and otherwise the client's size
-- and flag with version 0.
abbrev pub client_edns : Option EdnsInfo → Option EdnsInfo
client_edns none = none
client_edns (some e) = some (record e { edns_present = true; version = 0 })

response_or_failure-IsTyped :
    (packet response : DnsPacket)
    → All IsTyped response.additionals
    → All IsTyped (response_or_failure packet response).additionals
unfolding response_or_failure make_server_failure
response_or_failure-IsTyped packet response h =
    elim (Bool-cases (not (is_response response.header) || not (has_value response.question))) [
      | inl t ↦ rw t tt
      | inr f ↦ rw f h
    ]

sent_packet-edns : (p : DnsPacket) → get_edns_info (sent_packet p) ≡ edns_in p.additionals
unfolding get_edns_info sent_packet set_counts
sent_packet-edns p = edns_in-as_read p.additionals

add_client_opt-edns :
    (e : Option EdnsInfo) (p : DnsPacket)
    → edns_in p.additionals ≡ none
    → ((i : EdnsInfo) → e ≡ some i → IsBounded i)
    → get_edns_info (sent_packet (add_client_opt e p)) ≡ client_edns e
unfolding get_edns_info
add_client_opt-edns none p h k = sent_packet-edns p ∙ h
add_client_opt-edns (some e) p h k =
    let (low, high, there) = k e refl in
    let size : min (max 512 e.max_payload_size) 1232 ≡ e.max_payload_size = omega arith in
    get_edns_info-create p e.max_payload_size 0 0 e.dnssec_ok h
    ∙ ap
        (λ n. some (record {
          edns_present = true;
          max_payload_size = n;
          dnssec_ok = e.dnssec_ok;
          version = 0;
        }))
        size

-- Where the types of the response's additional records are those of their data, OPT records of
-- other servers do not reach the client: the EDNS of what it gets has the size that the server took
-- for the client's own, the client's flag and version 0; without EDNS in the query there is none in
-- the response.
pub complete_response-edns :
    (packet response : DnsPacket)
    → All IsTyped response.additionals
    → get_edns_info (sent_packet (complete_response packet response))
      ≡ client_edns (get_edns_info packet)
unfolding complete_response
complete_response-edns packet response h =
    add_client_opt-edns (get_edns_info packet) _
      (strip_opt-no_edns _ (response_or_failure-IsTyped packet response h))
      (get_edns_info-bounds packet)
