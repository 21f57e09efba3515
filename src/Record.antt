-- ===== src/Record.antt =====
-- Records (core/src/record).
pub mod Level
pub mod Kv
pub mod Message
pub mod Fields
pub mod Tags
