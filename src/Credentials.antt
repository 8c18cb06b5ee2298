-- ===== src/Credentials.antt =====
-- packages/security/src/encryption.ts and credential-vault.ts: `Encryption` writes and reads encrypted
-- texts, and `Vault` keeps credentials by owner.
pub mod Encryption
pub mod Vault
mod Roundtrip
mod Isolation
mod Retrieval
mod Tests
