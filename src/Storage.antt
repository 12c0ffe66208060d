-- ===== src/Storage.antt =====
-- internal/storage: the size classes of stored objects, and the audit of the hosts that store them.
pub mod Entropy
pub mod Placement
pub mod Quantize
pub mod Audit
mod Tests
