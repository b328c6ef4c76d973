-- ===== src/Resolver/Defs.antt =====
-- The helpers of the resolver that neither ask the network nor keep a state (src/DnsResolver.cxx).
use dns_server_cpp.Address.Defs.{IpAddress}
use dns_server_cpp.Buffer.State.{BytePacketBuffer}
use dns_server_cpp.Cache.Defs.{CacheResult, DnsCacheEntry, is_positive, to_lower}
use dns_server_cpp.Common.{
  Bool, List, Option, [], false, if◌then◌else◌, ltb, min, none, some, true, ℕ, ◌&&◌, ◌==◌, ◌∷◌,
}
use dns_server_cpp.Header.Defs.{
  DnsHeader, ResultCode, empty_header, is_response, recursion_desired, set_authoritative,
  set_recursion_available, set_recursion_desired, set_response, set_result_code,
}
use dns_server_cpp.Net.Exchange.{
  Reply, Verdict, answered, exchange, failed, faulted, make_request, no_verdict, send_failed, threw,
}
use dns_server_cpp.Net.Sockets.{SocketAddress, from_ip}
use dns_server_cpp.Packet.Defs.{DnsPacket, empty_packet}
use dns_server_cpp.Question.Defs.{DnsQuestion}
use dns_server_cpp.Record.Defs.{DnsRecord, SoaRecord, get_soa_record}

unfoldable pub equals_ignore_case : List ℕ → List ℕ → Bool
equals_ignore_case [] [] = true
equals_ignore_case [] (d ∷ b) = false
equals_ignore_case (c ∷ a) [] = false
equals_ignore_case (c ∷ a) (d ∷ b) = to_lower c == to_lower d && equals_ignore_case a b

abbrev pub default_negative_ttl : ℕ
default_negative_ttl = 60

-- The TTL that a SOA record gives: the smaller of its TTL and its minimum, where zero counts for none.
unfoldable pub negative_ttl_of : DnsRecord → SoaRecord → ℕ → ℕ
negative_ttl_of r soa default_ttl =
    if ltb 0 r.ttl && ltb 0 soa.minimum_ttl
    then min r.ttl soa.minimum_ttl
    else if ltb 0 r.ttl
    then r.ttl
    else if ltb 0 soa.minimum_ttl
    then soa.minimum_ttl
    else default_ttl

-- The first SOA record ends the search.
abbrev pub soa_or : DnsRecord → Option SoaRecord → ℕ → ℕ → ℕ
soa_or r none default_ttl below = below
soa_or r (some soa) default_ttl below = negative_ttl_of r soa default_ttl

unfoldable pub negative_ttl_in : List DnsRecord → ℕ → ℕ
negative_ttl_in [] default_ttl = default_ttl
negative_ttl_in (r ∷ rs) default_ttl =
    soa_or r (get_soa_record r) default_ttl (negative_ttl_in rs default_ttl)

unfoldable pub extract_negative_ttl : DnsPacket → ℕ
extract_negative_ttl packet = negative_ttl_in packet.authorities default_negative_ttl

-- How a call of `QueryNameServer` ends: it returns a packet, an exception leaves it, or the program
-- faulted.
pub data Queried : Type 0 where
  query_replied : DnsPacket → Queried
  query_threw query_faulted : Queried

abbrev pub verdict_packet : Verdict → Queried
verdict_packet no_verdict = query_replied empty_packet
verdict_packet failed = query_replied empty_packet
verdict_packet (answered response rtt) = query_replied response
verdict_packet threw = query_threw
verdict_packet faulted = query_faulted

-- `QueryNameServer`. A socket that does not open comes to the same as a datagram that is not sent.
unfoldable pub query_name_server :
    Bool → (SocketAddress → BytePacketBuffer → Reply) → DnsPacket → IpAddress → Queried
query_name_server opens network query address =
    let server = from_ip address 53 in
    let send = λ (b : BytePacketBuffer). if opens then network server b else send_failed in
    verdict_packet (exchange (make_request query) server send)

abbrev pub question_or : Option DnsQuestion → Option DnsQuestion → Option DnsQuestion
question_or (some q) other = some q
question_or none other = other

unfoldable pub finalize_header : DnsHeader → DnsHeader → DnsHeader
finalize_header query header = set_recursion_desired (recursion_desired query) (
    set_recursion_available true
      (set_authoritative false (set_response true (record header { id = query.id }))))

unfoldable pub finalize_response : DnsPacket → DnsPacket → DnsPacket
finalize_response response query =
    if is_response response.header
    then record response {
      header = finalize_header query.header response.header;
      question = question_or response.question query.question;
    }
    else response

-- The code that a cached entry is answered with.
abbrev pub entry_code : CacheResult → ResultCode
entry_code CacheResult.positive = ResultCode.noerror
entry_code CacheResult.nxdomain = ResultCode.nxdomain
entry_code CacheResult.nodata = ResultCode.noerror

-- The answers of a cached entry: those of a positive one.
abbrev pub entry_answers : DnsCacheEntry → List DnsRecord
entry_answers e = if is_positive e.result then e.records else []

unfoldable pub cached_header : DnsHeader → CacheResult → DnsHeader
cached_header query result = set_result_code (entry_code result) (
    set_recursion_available true (
      set_recursion_desired (recursion_desired query)
        (set_response true (record empty_header { id = query.id; flags = 0 }))))

-- The response to a query that the cache answers.
unfoldable pub cached_response : DnsPacket → DnsCacheEntry → DnsPacket
cached_response query e = record empty_packet {
  header = cached_header query.header e.result;
  question = query.question;
  answers = entry_answers e;
}
