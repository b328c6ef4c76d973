-- ===== src/Question/Defs.antt =====
-- DnsQuestion and QuestionType. `static_cast<QuestionType>` keeps any 16-bit value, listed or not,
-- so a type is its number.
use dns_server_cpp.Buffer.Access.{read_u16, write_u16}
use dns_server_cpp.Buffer.Names.{read_qname, write_qname}
use dns_server_cpp.Buffer.State.{Action, pure, ◌>>=◌, ◌>>◌}
use dns_server_cpp.Common.{List, ℕ}

abbrev pub QuestionType : Type 0
QuestionType = ℕ

abbrev pub a_type : QuestionType
a_type = 1

abbrev pub ns_type : QuestionType
ns_type = 2

abbrev pub cname_type : QuestionType
cname_type = 5

abbrev pub soa_type : QuestionType
soa_type = 6

abbrev pub mx_type : QuestionType
mx_type = 15

abbrev pub aaaa_type : QuestionType
aaaa_type = 28

abbrev pub opt_type : QuestionType
opt_type = 41

pub record DnsQuestion : Type 0 where
  pub name : List ℕ
  pub type : QuestionType
  pub class : ℕ

-- The constructor, whose class is 1 unless it is given.
abbrev pub make_question : List ℕ → QuestionType → DnsQuestion
make_question n t = record { name = n; type = t; class = 1 }

unfoldable pub read_question : Action DnsQuestion
read_question = do
  name ← read_qname
  type ← read_u16
  class ← read_u16
  pure (record { name = name; type = type; class = class })

unfoldable pub write_question : DnsQuestion → Action (Unit {0})
write_question q = do write_qname q.name; write_u16 q.type; write_u16 q.class
