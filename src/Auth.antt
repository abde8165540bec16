-- ===== src/Auth.antt =====
-- src/service: accounts, sessions and the guards against abuse, and what they share.
pub mod Overlap
pub mod LoginGuard
pub mod Sms
pub mod Base64
pub mod Jwt
pub mod Password
pub mod Session
pub mod RegisterGuard
pub mod Account
