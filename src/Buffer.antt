-- ===== src/Buffer.antt =====
-- The packet buffer, include/BytePacketBuffer.hpp and src/BytePacketBuffer.cxx.
pub mod State
pub mod Access
pub mod Names
pub mod Safe
pub mod NameBounds
pub mod Wire
pub mod NameWire
pub mod Reading
pub mod NameReading
pub mod Owners
pub mod Contents
mod Tests
