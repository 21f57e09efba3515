-- ===== src/Sink/Worm/Tests.antt =====
-- A small sink of core/src/sink/worm.rs.
use do_logger.Prelude.{ℕ, ◌≡◌, refl, true, none, some, List, [], ◌∷◌, arith, length, false}
use do_logger.Sink.Worm.{
  WormSink, PendingRecord, write_worm_record_internal, SinkResult, accepted, contents,
  derive_chain_link, media, close,
}
use do_logger.Sink.Worm.Closing.{close_loses}
use do_logger.Sink.Worm.Order.{written_twice, accepted_not_on_file, Continues}

abbrev digest : List ℕ → List ℕ
digest bytes = length bytes ∷ []

abbrev gap_marker : ℕ → ℕ → List ℕ
gap_marker from to = from ∷ to ∷ []

-- A new sink whose writer holds back 64 bytes.
abbrev small : WormSink
small = record {
  durability = media;
  window_ms = 200;
  writer = record { capacity = 64; on_file = []; held = [] };
  last_lsn = 0;
  last_hash = [];
  reorder_buffer = [];
  reorder_start = none;
  bytes_written = 0;
  is_open = true;
}

abbrev first : PendingRecord
first = record { data_bytes = 1 ∷ []; prev_hash = []; content_hash = some (7 ∷ []) }

abbrev second : PendingRecord
second = record { data_bytes = 2 ∷ []; prev_hash = 9 ∷ []; content_hash = some (8 ∷ []) }

abbrev timed_write : ℕ → ℕ → PendingRecord → WormSink → WormSink × SinkResult
timed_write = write_worm_record_internal digest gap_marker

written_twice_example :
    (contents (timed_write 11 1 first (timed_write 10 2 second small).0).0 ≡ 1 ∷ [])
    × (contents
          (timed_write 900 2 second (timed_write 11 1 first (timed_write 10 2 second small).0).0).0
        ≡ 1 ∷ 2 ∷ 2 ∷ [])
unfolding Continues derive_chain_link
written_twice_example =
    written_twice digest gap_marker 10 11 900 small (7 ∷ []) first second refl refl refl

accepted_not_on_file_example :
    ((timed_write 10 1 first small).1 ≡ accepted)
    × ((timed_write 10 1 first small).0.last_lsn ≡ 1)
    × ((timed_write 10 1 first small).0.writer.on_file ≡ [])
unfolding Continues
accepted_not_on_file_example =
    accepted_not_on_file digest gap_marker 10 small first refl (omega arith) (omega arith)

close_loses_example :
    ((timed_write 10 2 second small).1 ≡ accepted)
    × ((close digest (timed_write 10 2 second small).0).writer.on_file ≡ [])
    × ((close digest (timed_write 10 2 second small).0).writer.held ≡ [])
    × ((close digest (timed_write 10 2 second small).0).is_open ≡ false)
close_loses_example = close_loses digest gap_marker 10 small second
