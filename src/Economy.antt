-- ===== src/Economy.antt =====
-- internal/economy: the members' mutual credit. Spends and policy changes are records of an
-- append-only store; a ledger is the state that replaying the store gives.
pub mod Spend
pub mod Policy
pub mod Store
pub mod Ledger
mod Tests
