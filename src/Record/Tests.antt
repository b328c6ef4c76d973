-- ===== src/Record/Tests.antt =====
-- Runs of the theorems on one record: 1.2.3.4 for the name a.b.
use dns_server_cpp.Address.Defs.{Ipv4Address}
use dns_server_cpp.Buffer.NameReading.{IsName}
use dns_server_cpp.Buffer.NameWire.{split_dots}
use dns_server_cpp.Common.{List, [], arith, inr, refl, ℕ, ◌∷◌}
use dns_server_cpp.Question.Defs.{a_type}
use dns_server_cpp.Record.Defs.{DnsRecord, a_record}
use dns_server_cpp.Record.Reading.{IsRecord}

abbrev pub short_name : List ℕ
short_name = 97 ∷ b'.' ∷ 98 ∷ []

pub short_name-IsName : IsName short_name
unfolding split_dots
short_name-IsName = inr (omega arith, omega arith, omega arith)

abbrev sample_address : Ipv4Address
sample_address = record { octet0 = 1; octet1 = 2; octet2 = 3; octet3 = 4 }

abbrev pub sample_record : DnsRecord
sample_record = record {
  name = short_name;
  type = a_type;
  class = 1;
  ttl = 300;
  rdlength = 0;
  rdata = a_record sample_address;
}

pub sample_record-IsRecord : IsRecord sample_record
sample_record-IsRecord = record {
  name_is = inr short_name-IsName;
  type_lt = omega arith;
  class_lt = omega arith;
  ttl_lt = omega arith;
  data_is = omega arith;
  describes = refl;
  size_lt = omega arith;
}
