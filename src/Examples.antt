-- ===== src/Examples.antt =====
-- Tests: the guarantees at concrete inputs.
pub mod Data
mod Pipeline
mod Outbox
mod Runs
mod Dispatching
mod Lookaheads
mod Intake
mod Aligned
mod Sides
mod Fixtures
pub mod Pages
mod Books
mod Ledger
