-- ===== src/Protocol.antt =====
-- protocol/: the types that both sides speak.
pub mod Session
