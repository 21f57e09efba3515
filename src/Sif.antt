-- ===== src/Sif.antt =====
-- The SIF byte frames (core/src/sif).
pub mod Names
pub mod Frame
pub mod Scanner
pub mod Decode
