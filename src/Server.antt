-- ===== src/Server.antt =====
-- The server: src/DnsServer.cxx.
pub mod Defs
pub mod Serving
pub mod Response
pub mod Answers
pub mod Sockets
pub mod Accounts
pub mod Descriptors
pub mod Loop
pub mod Start
mod Tests
mod AnswerTests
mod StartTests
