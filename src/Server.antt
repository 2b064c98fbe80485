-- ===== src/Server.antt =====
-- The daemon, src/bin/neoshd.rs.
pub mod Errors
pub mod State
pub mod Wire
pub mod Terminal
pub mod Output
pub mod Input
pub mod Exchange
pub mod Connection
pub mod Listen
pub mod Tls
pub mod Start
pub mod Loops
pub mod Renewal
pub mod Serve
pub mod World
