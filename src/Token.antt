-- ===== src/Token.antt =====
-- src/token/.
pub mod Service
