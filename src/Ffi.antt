-- ===== src/Ffi.antt =====
-- ffi/neosh-client-c/src/lib.rs: the client for C.
pub mod Client
pub mod Connect
pub mod Control
pub mod Streams
