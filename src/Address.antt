-- ===== src/Address.antt =====
-- Network addresses: include/IPv4Address.hpp, IPv6Address.hpp and IPAddress.hpp with their sources.
pub mod Defs
pub mod Words
pub mod Text
pub mod TextForm
