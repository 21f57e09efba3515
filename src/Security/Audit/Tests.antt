-- ===== src/Security/Audit/Tests.antt =====
-- Two audit records through core/src/security/audit.rs.
use do_logger.Prelude.{ℕ, ◌≡◌, refl, true, Option, none, some, List, [], ◌∷◌, arith, length}
use do_logger.Record.Level.{audit}
use do_logger.Record.Fields.{Record, new, compute_content_hash}
use do_logger.Sink.Worm.{WormSink, contents, media}
use do_logger.Security.Audit.{AuditChain, AuditResult, drain_records, level_is_audit, processed}
use do_logger.Security.Audit.Chain.{
  AllAudit, level_with, no_more, one_more, all_taken, envelopes, stamp, transcript,
}
use do_logger.Security.Audit.Runs.{drain_records-transcript}

abbrev digest : List ℕ → List ℕ
digest bytes = length bytes ∷ []

abbrev sign_bytes : List ℕ → List ℕ
sign_bytes bytes = 5 ∷ bytes

abbrev gap_marker : ℕ → ℕ → List ℕ
gap_marker from to = from ∷ to ∷ []

-- The number of the record and its signature.
abbrev envelope : Record → Option (List ℕ) → List ℕ
envelope r none = r.lsn ∷ []
envelope r (some signature) = r.lsn ∷ signature

abbrev fresh_sink : WormSink
fresh_sink = record {
  durability = media;
  window_ms = 200;
  writer = record { capacity = 64; on_file = []; held = [] };
  last_lsn = 0;
  last_hash = [];
  reorder_buffer = [];
  reorder_start = none;
  bytes_written = 0;
  is_open = true;
}

abbrev audited : ℕ → Record
audited i = record (new i) { level = audit }

abbrev two : List (ℕ × Record)
two = (10, audited 0) ∷ (12, audited 1) ∷ []

abbrev after : AuditChain × AuditResult
after =
    drain_records digest sign_bytes gap_marker envelope true (all_taken two)
      (level_with fresh_sink (some []) [] 1)

two-AllAudit : AllAudit two
unfolding level_is_audit
two-AllAudit = one_more refl (one_more refl no_more)

drain_records-transcript_example :
    (after.1 ≡ processed)
    × (contents after.0.worm ≡ 1 ∷ 5 ∷ 10 ∷ 2 ∷ 5 ∷ 10 ∷ [])
    × (after.0.prev_lsn ≡ 2)
unfolding envelopes transcript stamp compute_content_hash
drain_records-transcript_example =
    drain_records-transcript digest sign_bytes gap_marker envelope true fresh_sink (some []) [] two
      refl two-AllAudit (omega arith)
