-- ===== src/Techtree.antt =====
-- internal/techtree: the members' claims of knowledge, and the typed references between them.
pub mod Claim
pub mod Tree
mod Tests
