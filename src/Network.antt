-- ===== src/Network.antt =====
-- src/network: the sockets and the event loop of the server.
pub mod Socket
pub mod Sockets
pub mod Address
pub mod EventLoop
pub mod Server
