-- ===== src/Lib.antt =====
-- DoLogger: the core of the logging engine (core/src).
--
-- A record that a program submits passes the pre-filter policies, the backpressure controller and
-- the ring buffer; a consumer drains the ring and writes to the sinks. Each remote sink stands behind
-- a circuit breaker, and the consumer of an audit stream puts each record through a replay guard.
--
-- The files, by the source that they model:
-- - Prelude, Prelude/*: shared names, lists with native indices, Boolean tests, machine words.
-- - Pipeline/CircuitBreaker: core/src/pipeline/circuit_breaker.rs, every operation of CircuitBreaker, as
--   the accesses that it makes outside the mutex and its section under it; Threads lets any threads
--   interleave these. Invariant and Races are about threads, Runs about calls that come one by one.
-- - Security/ReplayGuard: core/src/security/replay_guard.rs, every operation of ReplayGuard; Strict is
--   about guards that reject gaps, Permissive about the others.
-- - Buffer/RingBuffer: core/src/buffer/ring_buffer.rs as threads that take one atomic access at a time.
--   `step` is the code of every loop; Log says what a trace of claims and deliveries must look like,
--   Invariant relates each sequence number to the thread that works on it, and Safety, Waits and Races
--   hold the theorems. Memory is sequentially consistent and sequence numbers do not wrap.
-- - Record/Level: LogLevel of core/src/record/mod.rs.
-- - Pipeline/Policy: core/src/pipeline/policy.rs, the token bucket and the drop-level policy.
-- - Pipeline/Backpressure: core/src/pipeline/backpressure.rs. A fill ratio is a float in the source; the
--   model takes the three values that the code reads of it.
-- - Pipeline/Canary: core/src/pipeline/canary.rs, the prober and its manager.
-- - Util/Hex: core/src/util/hex.rs.
-- - Security/Crc32c: core/src/security/crc32c.rs, the software routine.
-- - Config/Domain: core/src/config/domain.rs. Resolving takes fuel: the source's loop over the parents need
--   not end, and Downgrade shows when.
-- - Plugin/Quota: core/src/plugin/quota.rs. The comparison of CPU usage in floats is a parameter.
-- - Prelude/Bytes: numbers as little-endian bytes.
-- - Record/Kv: core/src/record/kv.rs. A slot is its bytes and the bytes of its overflow buffer.
-- - Record/Message: RecordString of core/src/record/mod.rs, over its 96 bytes or its heap bytes.
-- - Record/Fields: Record of core/src/record/mod.rs: slots by tag, the identifier and the bytes that the
--   content hash is taken of. SHA-256 is a parameter.
-- - Record/Tags: the tag tables of core/src/record/mod.rs; the process-wide state is passed along.
-- - Sif/Names: the names of fields in core/src/sif/codec.rs. Lookup of a name by its vendor tag takes the
--   latest entry, where the source's hash map has no order; it matters only if two names share a tag.
-- - Sif/Frame: the encoding of a record and the checks of a frame in core/src/sif/codec.rs. The text in
--   an error is left as it is; the state of the vendor tags is an argument.
-- - Sif/Scanner: FrameScanner and the length prefix of core/src/sif/codec.rs. The capacity of the buffer
--   is an argument.
-- - Sif/Decode: decode_record_with of core/src/sif/codec.rs. Whether bytes are UTF-8 and the digest are
--   parameters; the table of vendor tags is an argument and a result.
-- - Buffer/RecordPool: core/src/buffer/object_pool.rs. A pointer is the index of its node. Calls gives
--   alloc and free as calls that nothing interrupts; Steps as threads of atomic accesses.
-- - Buffer/EmergencyBuffer: core/src/buffer/emergency_buffer.rs. The spill file is its bytes and a
--   position; the cipher, the nonces, the outcome of a write and the set's order are parameters. The
--   fuel of drain_loop is the length of the file, since each frame takes eight bytes or more.
-- - Security/Audit: process_audit_record and the consumer of core/src/security/audit.rs, with
--   sign_record of core/src/security/signature.rs. They write to the sink below; the digest, the
--   signature and the envelope's text are parameters.
-- - Sink/Worm: core/src/sink/worm.rs. A BufWriter is the bytes on the file and those it holds back;
--   files do not fail or rotate, and the two readings of the clock in one call give one value.
-- Not modelled: the other codecs, the scheduler and the other sinks; I/O, dynamic loading and
-- third-party code stay outside.
-- An atomic counter or a field behind a mutex is a field of a record, and a call is one step that
-- returns the new record: interleavings inside a call are modelled for the ring buffer, the object
-- pool and the circuit breaker only. An Instant is a number that the caller passes, in the unit
-- that each file names; elapsed() saturates at zero in the source, as subtraction of natural
-- numbers does. Diagnostics, log messages and Display texts are left out. Counters that use
-- fetch_add wrap at their width, and those that use saturating_add saturate.
pub mod Prelude
pub mod Buffer
pub mod Record
pub mod Pipeline
pub mod Security
pub mod Util
pub mod Sif
pub mod Config
pub mod Plugin
pub mod Sink
