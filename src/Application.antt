-- ===== src/Application.antt =====
-- The life of an application: apps/api/src/services/application-state-machine.ts. `Status` is the
-- transition table, `Store` the tables that a transition reads and writes, `Machine` the guarded
-- transition.
pub mod Status
pub mod Graph
pub mod Store
pub mod Machine
pub mod Steps
pub mod Chain
pub mod Commits
pub mod History
mod Later
pub mod Retry
mod Tests
