-- ===== src/Sqlite.antt =====
-- src/tabdeal_signal/persistence/sqlite.py: the tables and the statements that change them. The SQL of
-- each statement is translated to a function on the list of a table's rows, in the order of rowid.
pub mod Schema
pub mod Persist
pub mod Claim
pub mod Marks
pub mod Validate
pub mod Rows
pub mod Members
pub mod Later
pub mod Safe
pub mod Consistent
pub mod Steps
pub mod Guarantees
