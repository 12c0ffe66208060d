-- ===== src/Covenant.antt =====
-- internal/covenant: verdicts on sealed exchanges, their answers, and the standing that they make.
pub mod Assessment
pub mod Store
pub mod Standing
pub mod Book
mod Tests
