-- ===== src/Config.antt =====
-- Configuration (core/src/config).
pub mod Domain
