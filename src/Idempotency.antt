-- ===== src/Idempotency.antt =====
-- Commands that run once per key: apps/api/src/services/idempotency.ts. `Command` is the code, `Rounds`
-- its recursion, `Retry` what a second call does.
pub mod Command
pub mod Rounds
pub mod Retry
mod Tests
