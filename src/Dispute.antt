-- ===== src/Dispute.antt =====
-- internal/dispute: how a grievance over a sealed exchange is opened, and ruled or withdrawn.
pub mod Artifact
pub mod Store
pub mod Registry
mod Tests
