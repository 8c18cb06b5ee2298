-- ===== src/Automation.antt =====
-- The durable automation jobs: apps/api/src/services/automation-jobs.ts. `Jobs` are the tables,
-- `Checks` the input checks, `Creation`, `Leasing`, `Ownership` and `Recovery` the operations.
pub mod Jobs
pub mod Checks
pub mod Creation
pub mod Leasing
pub mod Ownership
pub mod Recovery
pub mod Rows
pub mod Keys
pub mod Order
pub mod Calls
pub mod Owners
pub mod Invariant
pub mod Stays
pub mod Admission
pub mod Finality
pub mod Outcomes
pub mod Fencing
pub mod Holding
pub mod Replays
mod Tests
