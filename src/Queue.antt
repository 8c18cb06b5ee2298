-- ===== src/Queue.antt =====
-- packages/queue/src. `Names` is names.ts, `Envelope` registry.ts, and `Delay` and `Worker` are worker.ts; the
-- other modules are about them.
pub mod Names
pub mod Envelope
pub mod Delay
pub mod Worker
pub mod Bounds
pub mod Settling
pub mod Routing
mod Tests
