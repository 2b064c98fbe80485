-- ===== src/Client.antt =====
-- The client: src/client/ and src/bin/neosh.rs.
pub mod State
pub mod Stdin
pub mod Screen
pub mod Tasks
pub mod Bootstrap
pub mod Transport
pub mod Reconnect
pub mod Remote
pub mod Control
pub mod Cache
pub mod Session
pub mod Sockets
pub mod Commands
