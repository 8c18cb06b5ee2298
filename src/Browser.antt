-- ===== src/Browser.antt =====
-- packages/security/src/browser-policy.ts: which addresses a browser may open. `Addresses` classifies
-- IP addresses, and `Policy` decides on a URL, on a redirect and on what a host name resolves to.
pub mod Addresses
pub mod Policy
mod Safety
mod Mapped
mod Tests
