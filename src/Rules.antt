-- ===== src/Rules.antt =====
-- The rules of a user and the quality gate: packages/job-engine/src/rules.ts and
-- packages/job-engine/src/application-quality.ts. `Conditions` is what both share, `Engine` and
-- `Quality` are the two files, `Best` and `Decision` are about them.
pub mod Conditions
pub mod Engine
pub mod Quality
pub mod Best
pub mod Decision
pub mod Match
mod Tests
