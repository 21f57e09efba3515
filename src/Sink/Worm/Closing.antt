-- ===== src/Sink/Worm/Closing.antt =====
-- What a sink leaves behind when it is closed.
use do_logger.Prelude.{ℕ, ◌+◌, ◌≡◌, refl, ap, ◌∙◌, false, List, [], ◌++◌}
use do_logger.Sink.Worm.{
  WormSink, PendingRecord, accepted, close, contents, flush, fsync, write_worm_record_internal,
}
use do_logger.Sink.Worm.Order.{waiting_none, goes_on_waiting, write_early}

-- A record that is accepted one too early is lost when the sink is closed before the number between
-- comes: the file then holds what the sink had before, and nothing of the record. The sink is open
-- and no record waits, and no time passes within the call.
pub close_loses :
    (sha256 : List ℕ → List ℕ) (gap_marker : ℕ → ℕ → List ℕ) (now : ℕ) (s : WormSink)
    (early : PendingRecord)
    → let w =
        write_worm_record_internal sha256 gap_marker now (s.last_lsn + 2) early (waiting_none s) in
      (w.1 ≡ accepted)
      × ((close sha256 w.0).writer.on_file ≡ contents s)
      × ((close sha256 w.0).writer.held ≡ [])
      × ((close sha256 w.0).is_open ≡ false)
unfolding close flush fsync
close_loses sha256 gap_marker now s early =
    let e = write_early sha256 gap_marker now early s in
    let f = goes_on_waiting sha256 gap_marker now early s in
    (
      ap (λ z. z.1) e,
      ap (λ z. (close sha256 z.0).writer.on_file) e ∙ ap (λ z. z.writer.on_file ++ z.writer.held) f,
      refl,
      refl,
    )
