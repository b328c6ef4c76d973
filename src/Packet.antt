-- ===== src/Packet.antt =====
-- Whole packets: include/DnsPacket.hpp and src/DnsPacket.cxx.
pub mod Defs
pub mod Wire
pub mod RoundTrip
pub mod Safe
pub mod Edns
mod Tests
