-- ===== src/Question/Wire.antt =====
-- Questions on the wire.
use dns_server_cpp.Buffer.Access.{write_all}
use dns_server_cpp.Buffer.NameBounds.{IsReadName, read_qname-IsSafe}
use dns_server_cpp.Buffer.NameReading.{IsName, read_qname-Reads}
use dns_server_cpp.Buffer.NameWire.{qname_bytes, write_qname-IsSafe, write_qname_wire}
use dns_server_cpp.Buffer.Owners.{IsName-IsWritable}
use dns_server_cpp.Buffer.Reading.{Reads, bind-Reads, last-Reads, read_u16-Reads}
use dns_server_cpp.Buffer.Safe.{
  Any, IsSafe, bind-IsSafe, pure-IsSafe, read_u16-IsSafe, then-IsSafe, write_u16-IsSafe,
}
use dns_server_cpp.Buffer.Wire.{u16_bytes, write_all-append, write_u16_wire}
use dns_server_cpp.Common.{List, ℕ, ◌++◌, ◌<◌, ◌^◌, ◌≡◌}
use dns_server_cpp.Question.Defs.{DnsQuestion, read_question, write_question}

abbrev pub question_bytes : DnsQuestion → List ℕ
question_bytes q = qname_bytes q.name ++ (u16_bytes q.type ++ u16_bytes q.class)

pub record IsQuestion (q : DnsQuestion) : Type 0 where
  pub name_is : IsName q.name
  pub type_lt : q.type < 2 ^ 16
  pub class_lt : q.class < 2 ^ 16

pub write_question_wire :
    (q : DnsQuestion) → IsName q.name → write_question q ≡ write_all (question_bytes q)
unfolding write_question
write_question_wire q n =
    simp (write_qname_wire q.name (IsName-IsWritable q.name n), write_u16_wire, write_all-append)

pub read_question-Reads :
    (q : DnsQuestion) → IsQuestion q → Reads read_question (question_bytes q) q
unfolding read_question
read_question-Reads q v = bind-Reads _ (read_qname-Reads q.name v.name_is) (
    bind-Reads _ (read_u16-Reads q.type v.type_lt)
      (last-Reads _ (read_u16-Reads q.class v.class_lt)))

pub read_question-IsSafe :
    IsSafe (λ q. IsReadName q.name × (q.type < 2 ^ 16) × (q.class < 2 ^ 16)) read_question
unfolding read_question
read_question-IsSafe = bind-IsSafe read_qname-IsSafe λ name n.
    bind-IsSafe read_u16-IsSafe
      λ type t. bind-IsSafe read_u16-IsSafe λ class c. pure-IsSafe _ (n, t, c)

pub write_question-IsSafe : (q : DnsQuestion) → IsSafe Any (write_question q)
unfolding write_question
write_question-IsSafe q =
    then-IsSafe (write_qname-IsSafe q.name)
      (then-IsSafe (write_u16-IsSafe q.type) (write_u16-IsSafe q.class))
