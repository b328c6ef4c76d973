-- ===== src/Resolver/ChainTests.antt =====
-- A chain of one hop, from the name a over the name b to an address.
use dns_server_cpp.Address.Defs.{v4}
use dns_server_cpp.Common.{List, [], if◌then◌else◌, true, ℕ, ◌==◌, ◌∷◌, ◌≡◌}
use dns_server_cpp.Header.Defs.{empty_header}
use dns_server_cpp.Net.Exchange.{Reply, received}
use dns_server_cpp.Net.Sockets.{af_inet}
use dns_server_cpp.Packet.Defs.{DnsPacket, empty_packet}
use dns_server_cpp.Question.Defs.{a_type, cname_type}
use dns_server_cpp.Record.Defs.{DnsRecord, a_record, cname_record}
use dns_server_cpp.Resolver.Task.{World}
use dns_server_cpp.Roots.Ask.{Surroundings}
use dns_server_cpp.Roots.Defs.{RootServer, success}

abbrev pub root_server : RootServer
root_server = record {
  address = v4 (record { octet0 = 192; octet1 = 0; octet2 = 2; octet3 = 1 });
  status = success;
  consecutive_failures = 0;
  srtt_ms = 40;
}

-- A datagram from the server, 40 milliseconds after the request.
abbrev reply_of : List ℕ → Reply
reply_of bytes =
    received (af_inet 53 (record { octet0 = 192; octet1 = 0; octet2 = 2; octet3 = 1 })) 16 bytes 40

-- The name a is an alias of the name b.
abbrev reply_a : Reply
reply_a = reply_of (
    0 ∷ 7 ∷ 0x80 ∷ 0 ∷ 0 ∷ 0 ∷ 0 ∷ 1 ∷ 0 ∷ 0 ∷ 0 ∷ 0 ∷ 1 ∷ 97 ∷ 0 ∷ 0 ∷ 5 ∷ 0 ∷ 1 ∷ 0 ∷ 0 ∷ 0 ∷ 60
    ∷ 0 ∷ 3 ∷ 1 ∷ 98 ∷ 0 ∷ [])

-- The name b has an address.
abbrev reply_b : Reply
reply_b = reply_of (
    0 ∷ 7 ∷ 0x80 ∷ 0 ∷ 0 ∷ 0 ∷ 0 ∷ 1 ∷ 0 ∷ 0 ∷ 0 ∷ 0 ∷ 1 ∷ 98 ∷ 0 ∷ 0 ∷ 1 ∷ 0 ∷ 1 ∷ 0 ∷ 0 ∷ 0 ∷ 60
    ∷ 0 ∷ 4 ∷ 1 ∷ 2 ∷ 3 ∷ 4 ∷ [])

-- The server reads the first byte of the name that it is asked for.
abbrev chain_surroundings : Surroundings
chain_surroundings = record {
  roll = λ _. 50;
  draw = λ _ _. 0;
  opens = λ _. true;
  meanwhile = λ _ servers. servers;
  network = λ _ _ request. if request.buff 13 == 97 then reply_a else reply_b;
}

abbrev chain_world : World
chain_world = record {
  clock = λ n. n;
  query_id = λ _. 7;
  roots = λ _. chain_surroundings;
  opens = λ _. true;
  network = λ _ _ _. reply_b;
}

abbrev alias_of_b : DnsRecord
alias_of_b = record {
  name = 97 ∷ [];
  type = cname_type;
  class = 1;
  ttl = 60;
  rdlength = 3;
  rdata = cname_record (98 ∷ []);
}

abbrev address_of_b : DnsRecord
address_of_b = record {
  name = 98 ∷ [];
  type = a_type;
  class = 1;
  ttl = 60;
  rdlength = 4;
  rdata = a_record (record { octet0 = 1; octet1 = 2; octet2 = 3; octet3 = 4 });
}

abbrev response_of : DnsRecord → DnsPacket
response_of r = record empty_packet {
  header = record empty_header { id = 7; flags = 0x8000; ancount = 1 };
  answers = r ∷ [];
}

-- The table of the one server, as it is before and after each call.
abbrev OneRoot : List RootServer → Type 0
OneRoot servers = servers ≡ root_server ∷ []
