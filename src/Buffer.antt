-- ===== src/Buffer.antt =====
-- core/src/buffer: the ring buffer between the producers and the consumer.
pub mod RingBuffer
pub mod RecordPool
pub mod EmergencyBuffer
