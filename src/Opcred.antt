-- ===== src/Opcred.antt =====
-- internal/opcred: the operator's online keys, and the root key that delegates to them for a while.
pub mod Keyset
pub mod Delegation
mod Tests
