-- ===== src/Header/Tests.antt =====
-- A run of the theorem on a header.
use dns_server_cpp.Common.{true, ◌≡◌}
use dns_server_cpp.Header.Defs.{
  DnsHeader, empty_header, refused, set_authoritative, set_recursion_available,
  set_recursion_desired, set_response, set_result_code,
}
use dns_server_cpp.Header.Flags.{setters-view, view_flags}

abbrev query_header : DnsHeader
query_header = record empty_header { id = 7; flags = 0x0100 }

setters-view_example :
    (view_flags (set_response true query_header)
      ≡ record (view_flags query_header) { response = true })
    × (view_flags (set_authoritative true query_header)
        ≡ record (view_flags query_header) { authoritative = true })
    × (view_flags (set_recursion_desired true query_header)
        ≡ record (view_flags query_header) { desired = true })
    × (view_flags (set_recursion_available true query_header)
        ≡ record (view_flags query_header) { available = true })
    × (view_flags (set_result_code refused query_header)
        ≡ record (view_flags query_header) { code = refused })
setters-view_example = setters-view true refused query_header
