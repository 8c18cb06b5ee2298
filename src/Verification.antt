-- ===== src/Verification.antt =====
-- apps/api/src/services/human-verification.ts: the checks that stop an application until its user has
-- acted. `Store` has the tables, `Machine` asks, `Resolution` resolves, `Handoff` cancels and resumes;
-- `Classification` is the end of packages/security/src/browser-policy.ts.
pub mod Classification
pub mod Store
pub mod Machine
pub mod Resolution
pub mod Handoff
mod Pending
mod Single
mod Ending
mod Replays
mod Tests
