-- ===== src/Packet/Safe.antt =====
-- Memory safety of reading and writing whole packets.
use dns_server_cpp.Buffer.NameBounds.{IsReadName}
use dns_server_cpp.Buffer.Safe.{
  Any, IsSafe, bind-IsSafe, pure-IsSafe, raise_if-IsSafe, test-IsSafe, then-IsSafe,
}
use dns_server_cpp.Buffer.State.{runtime_error}
use dns_server_cpp.Common.{
  ==_iff, All, List, Option, [], ap, arith, length, ltb, none, refl, some, subst, suc, zero, ℕ, ◌<◌,
  ◌==◌, ◌^◌, ◌∷◌, ◌≡◌, ◌≤◌,
}
use dns_server_cpp.Header.Wire.{IsHeader, read_header-IsSafe, write_header-IsSafe}
use dns_server_cpp.Packet.Defs.{
  DnsPacket, question_count, read_packet, read_question_if, read_records, read_sections,
  write_packet, write_question_if, write_records,
}
use dns_server_cpp.Question.Defs.{DnsQuestion}
use dns_server_cpp.Question.Wire.{read_question-IsSafe, write_question-IsSafe}
use dns_server_cpp.Record.Defs.{DnsRecord}
use dns_server_cpp.Record.Safe.{IsReadRecord, read_record-IsSafe}
use dns_server_cpp.Record.WriteSafe.{write_record-IsSafe}

abbrev pub IsReadQuestion : DnsQuestion → Type 0
IsReadQuestion q = IsReadName q.name × (q.type < 2 ^ 16) × (q.class < 2 ^ 16)

-- A packet as `read` returns it: the sections have the lengths that the header counts.
pub record IsReadPacket (p : DnsPacket) : Type 0 where
  pub header_is : IsHeader p.header
  pub qdcount_is : p.header.qdcount ≡ question_count p.question
  pub question_is : (q : DnsQuestion) → p.question ≡ some q → IsReadQuestion q
  pub ancount_is : length p.answers ≡ p.header.ancount
  pub nscount_is : length p.authorities ≡ p.header.nscount
  pub arcount_is : length p.additionals ≡ p.header.arcount
  pub answers_are : All IsReadRecord p.answers
  pub authorities_are : All IsReadRecord p.authorities
  pub additionals_are : All IsReadRecord p.additionals

read_records-IsSafe :
    (n : ℕ) → IsSafe (λ rs. (length rs ≡ n) × All IsReadRecord rs) (read_records n)
unfolding read_records
read_records-IsSafe zero = pure-IsSafe [] (refl, tt)
read_records-IsSafe (suc n) =
    bind-IsSafe read_record-IsSafe
      λ r h. bind-IsSafe (read_records-IsSafe n) λ rs k. pure-IsSafe (r ∷ rs) (ap suc k.0, (h, k.1))

abbrev IsReadIf : ℕ → Option DnsQuestion → Type 0
IsReadIf n q = (n ≡ question_count q) × ((x : DnsQuestion) → q ≡ some x → IsReadQuestion x)

read_question_if-IsSafe : (n : ℕ) → n ≤ 1 → IsSafe (IsReadIf n) (read_question_if n)
unfolding read_question_if question_count
read_question_if-IsSafe n h =
    test-IsSafe (n == 1)
      (λ t.
        bind-IsSafe read_question-IsSafe
          λ q k. pure-IsSafe (some q) ((==_iff n 1).0 t, λ x e. subst IsReadQuestion (cc e) k))
      (λ t. pure-IsSafe none (ground (arith, t), λ x e. cc e))

-- Reading a packet from a well-formed buffer never leaves the array and always ends; a packet that
-- is returned has a question exactly when its header counts one, sections as long as the header
-- says, and every field in range.
pub read_packet-IsSafe : IsSafe IsReadPacket read_packet
unfolding read_packet read_sections
read_packet-IsSafe = bind-IsSafe read_header-IsSafe λ h v.
    bind-IsSafe (raise_if-IsSafe (ltb 1 h.qdcount) runtime_error) λ _ one.
      bind-IsSafe (read_question_if-IsSafe h.qdcount (ground (arith, one))) λ question q.
        bind-IsSafe (read_records-IsSafe h.ancount) λ answers an.
          bind-IsSafe (read_records-IsSafe h.nscount) λ authorities ns.
            bind-IsSafe (read_records-IsSafe h.arcount) λ additionals ar. pure-IsSafe _ (record {
              header_is = v;
              qdcount_is = q.0;
              question_is = q.1;
              ancount_is = an.0;
              nscount_is = ns.0;
              arcount_is = ar.0;
              answers_are = an.1;
              authorities_are = ns.1;
              additionals_are = ar.1;
            })

write_records-IsSafe : (rs : List DnsRecord) → IsSafe Any (write_records rs)
unfolding write_records
write_records-IsSafe [] = pure-IsSafe tt tt
write_records-IsSafe (r ∷ rs) = then-IsSafe (write_record-IsSafe r) (write_records-IsSafe rs)

write_question_if-IsSafe : (q : Option DnsQuestion) → IsSafe Any (write_question_if q)
unfolding write_question_if
write_question_if-IsSafe none = pure-IsSafe tt tt
write_question_if-IsSafe (some q) = write_question-IsSafe q

-- Writing any packet, also one whose fields are out of range or that does not fit, into a
-- well-formed buffer never leaves the array, always ends and leaves the buffer well-formed.
pub write_packet-IsSafe : (p : DnsPacket) → IsSafe Any (write_packet p)
unfolding write_packet
write_packet-IsSafe p = then-IsSafe (write_header-IsSafe _) (
    then-IsSafe (write_question_if-IsSafe p.question) (
      then-IsSafe (write_records-IsSafe p.answers)
        (then-IsSafe (write_records-IsSafe p.authorities) (write_records-IsSafe p.additionals))))
