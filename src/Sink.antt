-- ===== src/Sink.antt =====
-- Sinks (core/src/sink).
pub mod Worm
