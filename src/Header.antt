-- ===== src/Header.antt =====
-- The packet header, include/DnsHeader.hpp and src/DnsHeader.cxx, with the result codes of
-- include/result_code.hpp. The four counts and the flag word are 16-bit numbers.
pub mod Defs
pub mod Flags
pub mod Wire
mod Tests
