-- ===== src/Record.antt =====
-- internal/record: the sealed dialogs of the members, and the operator's logs over them.
pub mod Entry
pub mod Tree
pub mod Checkpoint
pub mod Verify
pub mod Log
pub mod Witness
pub mod Lifecycle
pub mod Filing
pub mod Locker
mod Tests
mod LogTests
mod ClaimTests
