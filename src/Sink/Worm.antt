-- ===== src/Sink/Worm.antt =====
-- WormSink of core/src/sink/worm.rs: the order of records, the chain of hashes, and the buffered
-- file behind them. Files do not fail and do not rotate here, nor is their mode changed; so there
-- is a writer exactly while the sink is open. Times are in milliseconds, and both readings of the
-- clock in a call give one value; the digest and the text of a gap marker are parameters.
-- `BufWriter` keeps what its capacity has room for.
pub mod Order
pub mod Closing
mod Tests
use do_logger.Prelude.{
  ℕ, ◌+◌, ◌-◌, Bool, true, false, not, ◌&&◌, ◌||◌, Option, none, some, List, [], ◌∷◌, ◌++◌, ltb,
  ◌==◌, if◌then◌else◌, length,
}
use do_logger.Prelude.Bytes.{le}
use do_logger.Record.Tags.{name_eq}

pub data WormDurability : Type 0 where
  os_cache media media_with_fua : WormDurability

pub record PendingRecord : Type 0 where
  pub data_bytes : List ℕ
  pub prev_hash : List ℕ
  pub content_hash : Option (List ℕ)

-- The file and the bytes that `BufWriter` holds back.
pub record Writer : Type 0 where
  pub capacity : ℕ
  pub on_file : List ℕ
  pub held : List ℕ

pub record WormSink : Type 0 where
  pub durability : WormDurability
  pub window_ms : ℕ
  pub writer : Writer
  pub last_lsn : ℕ
  pub last_hash : List ℕ
  pub reorder_buffer : List (ℕ × PendingRecord)
  pub reorder_start : Option ℕ
  pub bytes_written : ℕ
  pub is_open : Bool

pub data SinkResult : Type 0 where
  accepted closed chain_broken : SinkResult

abbrev pub contents : WormSink → List ℕ
contents s = s.writer.on_file ++ s.writer.held

unfoldable pub write_all : List ℕ → Writer → Writer
write_all bytes w =
    if not (ltb w.capacity (length w.held + length bytes)) && ltb (length bytes) w.capacity
    then record w { held = w.held ++ bytes }
    else if ltb (length bytes) w.capacity
    then record w { on_file = w.on_file ++ w.held; held = bytes }
    else record w { on_file = (w.on_file ++ w.held) ++ bytes; held = [] }

unfoldable pub write_raw : List ℕ → WormSink → WormSink
write_raw bytes s =
    if s.is_open
    then record s {
      writer = write_all bytes s.writer;
      bytes_written = s.bytes_written + length bytes;
    }
    else s

-- `sync_all` on the file below the `BufWriter`: what this holds back stays where it is.
unfoldable pub fsync : WormSink → WormSink
fsync s = s

-- `fsync` unless the durability is that of the operating system's cache.
unfoldable pub sync : WormSink → WormSink
unfolding fsync
sync s = elim s.durability [ os_cache ↦ s | media ↦ fsync s | media_with_fua ↦ fsync s ]

unfoldable pub insert_pending :
    ℕ → PendingRecord → List (ℕ × PendingRecord) → List (ℕ × PendingRecord)
insert_pending lsn r [] = (lsn, r) ∷ []
insert_pending lsn r (e ∷ rest) =
    if ltb lsn e.0
    then (lsn, r) ∷ e ∷ rest
    else if lsn == e.0
    then (lsn, r) ∷ rest
    else e ∷ insert_pending lsn r rest

-- `flush` of the `BufWriter`.
unfoldable pub flush : WormSink → WormSink
flush s = record s {
  writer = record s.writer { on_file = s.writer.on_file ++ s.writer.held; held = [] };
}

-- A new writer on the file. One that is there is dropped, which writes what it holds.
unfoldable pub open_sink : WormSink → WormSink
unfolding flush
open_sink s = record (flush s) { is_open = true }

-- Text without a number.
unfoldable pub write : List ℕ → WormSink → WormSink
unfolding write_raw sync
write formatted s = sync (write_raw (10 ∷ []) (write_raw formatted s))

module _ (sha256 : List ℕ → List ℕ) where
  unfoldable pub derive_chain_link : List ℕ → ℕ → List ℕ
  derive_chain_link content_hash lsn = sha256 (content_hash ++ le 8 lsn)

  unfoldable pub next_hash : Option (List ℕ) → List ℕ → ℕ → List ℕ
  next_hash none prev_hash lsn = prev_hash
  next_hash (some content_hash) prev_hash lsn = derive_chain_link content_hash lsn

  unfoldable pub persist : ℕ → PendingRecord → WormSink → WormSink
  unfolding write_raw
  persist lsn r s = record (write_raw r.data_bytes s) {
    last_lsn = lsn;
    last_hash = next_hash r.content_hash r.prev_hash lsn;
  }

  -- The loop over the buffer, in the order of its keys.
  unfoldable pub flush_entries : List (ℕ × PendingRecord) → WormSink → WormSink
  flush_entries [] s = record s { reorder_buffer = []; reorder_start = none }
  flush_entries (e ∷ rest) s = elim (ltb (s.last_lsn + 1) e.0) [
    | true ↦ record s { reorder_buffer = e ∷ rest }
    | false ↦ flush_entries rest (if e.0 == s.last_lsn + 1 then persist e.0 e.1 s else s)
  ]

  unfoldable pub flush_reorder_buffer : WormSink → WormSink
  flush_reorder_buffer s = flush_entries s.reorder_buffer s

  -- What waits is written if it is next; then the file is closed.
  unfoldable pub close : WormSink → WormSink
  unfolding flush_reorder_buffer flush fsync
  close s = record (fsync (flush (flush_reorder_buffer s))) { is_open = false }

  module _ (gap_marker : ℕ → ℕ → List ℕ) where
    -- The gap up to the first record that waits is marked, and the buffer flushed.
    unfoldable pub mark_gap : List (ℕ × PendingRecord) → WormSink → WormSink
    unfolding write_raw fsync flush_reorder_buffer
    mark_gap [] s = s
    mark_gap (first ∷ rest) s =
        let t = fsync (write_raw (gap_marker (s.last_lsn + 1) (first.0 - 1)) s) in
        record (flush_reorder_buffer (record t { last_lsn = first.0 - 1 })) { reorder_start = none }

    unfoldable pub check_reorder_window : ℕ → WormSink → WormSink
    check_reorder_window now s = elim s.reorder_start [
      | none ↦ s
      | some start ↦
          if s.window_ms == 0 || ltb (now - start) s.window_ms
          then s
          else mark_gap s.reorder_buffer s
    ]

    unfoldable pub write_worm_record_internal :
        ℕ → ℕ → PendingRecord → WormSink → WormSink × SinkResult
    unfolding persist sync
    write_worm_record_internal now lsn r s =
        if not s.is_open
        then (s, closed)
        else if lsn == s.last_lsn + 1
        then if ltb 0 s.last_lsn && not (name_eq r.prev_hash s.last_hash)
          then (s, chain_broken)
          else (sync (persist lsn r (flush_reorder_buffer s)), accepted)
        else if ltb (s.last_lsn + 1) lsn
        then (
          check_reorder_window now (record s {
            reorder_buffer = insert_pending lsn r s.reorder_buffer;
            reorder_start = elim s.reorder_start [ none ↦ some now | some t ↦ some t ];
          }),
          accepted,
        )
        else (s, accepted)
