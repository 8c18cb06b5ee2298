-- ===== src/Outbox.antt =====
-- The publisher of outbox events: apps/api/src/services/outbox-publisher.ts. `Publisher` and `Batch` are
-- the code, `Batches`, `Counts` and `Settling` are about it.
pub mod Publisher
pub mod Batch
pub mod Batches
pub mod Counts
pub mod Settling
mod Tests
