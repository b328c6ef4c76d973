-- ===== src/Record.antt =====
-- Resource records: include/DnsRecord.hpp and src/DnsRecord.cxx.
pub mod Defs
pub mod Write
pub mod Read
pub mod Lengths
pub mod Wire
pub mod Bytes
pub mod Reading
pub mod Safe
pub mod WriteSafe
pub mod Tests
