-- ===== src/Security.antt =====
-- Security (core/src/security).
pub mod ReplayGuard
pub mod Crc32c
pub mod Audit
