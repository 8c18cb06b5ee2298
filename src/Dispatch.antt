-- ===== src/Dispatch.antt =====
-- apps/api/src/services/automation-job-dispatcher.ts: `Loop` is the code, between the job table of
-- `Automation` and the envelopes of `Queue`.
pub mod Loop
mod Counts
mod Envelopes
mod Leases
mod Tests
