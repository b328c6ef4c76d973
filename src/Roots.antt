-- ===== src/Roots.antt =====
-- The root servers' manager: include/RootServerManager.hpp and src/RootServerManager.cxx.
pub mod Defs
pub mod Ask
pub mod Probe
pub mod Probed
pub mod Bands
pub mod Choice
pub mod Asked
pub mod Meanwhile
pub mod Threads
pub mod Mutex
pub mod Consistent
pub mod Interleaved
pub mod Locked
pub mod Nearer
pub mod Progress
pub mod Stopping
mod Tests
mod ThreadTests
