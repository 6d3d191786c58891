-- ===== src/Sqlite/Guarantees.antt =====
-- src/tabdeal_signal/persistence/sqlite.py: what the operations promise together.
pub mod Reopen
pub mod Lookups
pub mod Commits
pub mod Replay
pub mod Claimed
pub mod Leases
pub mod Exclusive
pub mod Settling
pub mod Marks
pub mod Transitions
pub mod Events
