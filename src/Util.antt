-- ===== src/Util.antt =====
-- Utilities (core/src/util).
pub mod Hex
