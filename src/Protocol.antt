-- ===== src/Protocol.antt =====
-- The control protocol: src/protocol/.
pub mod Framing
pub mod Messages
pub mod Dispatcher
