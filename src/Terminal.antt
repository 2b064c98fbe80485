-- ===== src/Terminal.antt =====
-- src/terminal/.
pub mod Quote
pub mod Pty
