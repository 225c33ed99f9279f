-- ===== src/Secrets.antt =====
-- one-true-pairing/src/secrets: the session with the secrets service.
pub mod Dh
pub mod Crypto
pub mod Session
