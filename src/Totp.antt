-- ===== src/Totp.antt =====
-- one-true-pairing/src/totp.rs: otpauth URLs and one-time codes.
pub mod UrlDecode
pub mod Base32
pub mod Url
pub mod Hotp
