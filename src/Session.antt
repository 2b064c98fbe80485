-- ===== src/Session.antt =====
-- src/session/.
pub mod Manager
