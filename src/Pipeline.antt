-- ===== src/Pipeline.antt =====
-- The pipeline (core/src/pipeline).
pub mod CircuitBreaker
pub mod Policy
pub mod Backpressure
pub mod Canary
