-- ===== src/Plugin.antt =====
-- Plugins (core/src/plugin).
pub mod Quota
