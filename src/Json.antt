-- ===== src/Json.antt =====
-- JSON values and the canonical text by which requests and metadata are compared: `canonicalJson`
-- of apps/api/src/services/application-state-machine.ts, and `canonicalize` of
-- apps/api/src/services/idempotency.ts, which has the same body. `Locale` is the text of payloads.
pub mod Value
pub mod Canonical
pub mod Order
pub mod Reordering
pub mod Locale
mod Tests
