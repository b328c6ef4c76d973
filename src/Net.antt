-- ===== src/Net.antt =====
-- What the resolver and the root servers' manager share when they ask a server: socket addresses
-- (src/SocketAddress.cxx), the request they send and the reply they accept.
pub mod Sockets
pub mod Exchange
pub mod Replies
pub mod Oversized
pub mod Received
mod Tests
pub mod Endpoints
