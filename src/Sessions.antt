-- ===== src/Sessions.antt =====
-- Refresh token sessions: apps/api/src/services/refresh-sessions.ts, and the session that
-- apps/api/src/routes/auth.ts opens at a login. `Rows` is the table, `Rotation` the operations; the
-- other modules are about them.
pub mod Rows
pub mod Rotation
pub mod Counts
pub mod Families
pub mod Liveness
pub mod Reuse
pub mod Death
pub mod Lifetime
mod Tests
