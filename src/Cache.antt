-- ===== src/Cache.antt =====
-- The response cache: include/DnsCache.hpp and src/DnsCache.cxx.
pub mod Defs
pub mod Keys
pub mod Entries
pub mod Lifetimes
pub mod Machine
pub mod Runs
pub mod Orders
mod Tests
