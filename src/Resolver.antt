-- ===== src/Resolver.antt =====
-- The recursive resolver: include/DnsResolver.hpp and src/DnsResolver.cxx.
pub mod Defs
pub mod Task
pub mod Lookup
pub mod Names
pub mod Final
pub mod Answered
pub mod Replies
pub mod Cached
pub mod Loops
pub mod Referrals
pub mod Hops
pub mod Chains
pub mod Resolved
pub mod Denied
pub mod Candidates
pub mod Negative
pub mod Tests
mod ChainTests
mod ResolvedTests
mod DeniedTests
