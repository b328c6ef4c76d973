-- ===== src/Record/Defs.antt =====
-- DnsRecord and the variant of its data (include/DnsRecord.hpp).
use dns_server_cpp.Address.Defs.{IpAddress, Ipv4Address, Ipv6Address, v4, v6}
use dns_server_cpp.Common.{Bool, List, Option, none, some, ℕ}
use dns_server_cpp.Question.Defs.{QuestionType}

pub record SoaRecord : Type 0 where
  pub primary_name_server : List ℕ
  pub responsible_authority_mailbox : List ℕ
  pub serial_number : ℕ
  pub refresh_interval : ℕ
  pub retry_interval : ℕ
  pub expire_limit : ℕ
  pub minimum_ttl : ℕ

pub record OptRecord : Type 0 where
  pub udp_payload_size : ℕ
  pub extended_rcode : ℕ
  pub version : ℕ
  pub dnssec_ok : Bool
  pub options_raw : List ℕ

-- std::variant of the eight record structs.
pub data DnsRecordData : Type 0 where
  a_record : Ipv4Address → DnsRecordData
  aaaa_record : Ipv6Address → DnsRecordData
  cname_record : List ℕ → DnsRecordData
  mx_record : ℕ → List ℕ → DnsRecordData
  ns_record : List ℕ → DnsRecordData
  soa_record : SoaRecord → DnsRecordData
  opt_record : OptRecord → DnsRecordData
  unknown_record : List ℕ → DnsRecordData

pub record DnsRecord : Type 0 where
  pub name : List ℕ
  pub type : QuestionType
  pub class : ℕ
  pub ttl : ℕ
  pub rdlength : ℕ
  pub rdata : DnsRecordData

unfoldable pub get_cname_record : DnsRecord → Option (List ℕ)
get_cname_record r = elim r.rdata [ cname_record n ↦ some n | _ ↦ none ]

unfoldable pub get_ns_record : DnsRecord → Option (List ℕ)
get_ns_record r = elim r.rdata [ ns_record n ↦ some n | _ ↦ none ]

unfoldable pub get_soa_record : DnsRecord → Option SoaRecord
get_soa_record r = elim r.rdata [ soa_record s ↦ some s | _ ↦ none ]

unfoldable pub get_opt_record : DnsRecord → Option OptRecord
get_opt_record r = elim r.rdata [ opt_record o ↦ some o | _ ↦ none ]

unfoldable pub get_ip_address : DnsRecord → Option IpAddress
get_ip_address r = elim r.rdata [
  | a_record a ↦ some (v4 a)
  | aaaa_record a ↦ some (v6 a)
  | _ ↦ none
]
