-- ===== src/Security/Audit.antt =====
-- process_audit_record of core/src/security/audit.rs with sign_record of
-- core/src/security/signature.rs: the numbers, the chain of hashes and the two sinks of a run of
-- audit records. The digest, the signature and the text of an envelope are parameters, and so is
-- how the security sink and the sidecar answer. The external anchor is left out, whose result
-- nothing depends on.
pub mod Chain
pub mod Runs
mod Tests
use do_logger.Prelude.{
  ℕ, ◌+◌, ◌-◌, ◌/◌, ◌%◌, ◌^◌, Bool, true, false, not, Option, none, some, List, [], ◌∷◌, ◌++◌, ltb,
  ◌==◌, if◌then◌else◌, ◌&&◌,
}
use do_logger.Prelude.Bytes.{le}
use do_logger.Record.Level.{LogLevel, audit, trace, debug, info, warn, error, fatal}
use do_logger.Record.Fields.{Record, hash_input, compute_content_hash}
use do_logger.Sink.Worm.{
  WormSink, PendingRecord, SinkResult, write_worm_record_internal, accepted, chain_broken, closed,
}

-- The lines of a sidecar file: a number, a digest and a signature each.
abbrev pub Lines : Type 0
Lines = List (ℕ × List ℕ × List ℕ)

-- What the consumer keeps from record to record; `next_lsn` is the counter of the signature engine.
pub record AuditChain : Type 0 where
  pub worm : WormSink
  pub sidecar : Option Lines
  pub prev_content_hash : List ℕ
  pub prev_lsn : ℕ
  pub next_lsn : ℕ

pub data AuditResult : Type 0 where
  processed not_audit lsn_exhausted worm_failed security_failed sidecar_failed : AuditResult

-- Whether the security sink and the sidecar take what is written to them.
pub record Outcomes : Type 0 where
  pub now : ℕ
  pub security : Bool
  pub sidecar : Bool

unfoldable pub level_is_audit : LogLevel → Bool
level_is_audit audit = true
level_is_audit trace = false
level_is_audit debug = false
level_is_audit info = false
level_is_audit warn = false
level_is_audit error = false
level_is_audit fatal = false

-- One bit of the flags, set or cleared.
unfoldable pub set_bit : ℕ → Bool → ℕ → ℕ
set_bit bit on flags =
    if (flags / bit) % 2 == 0
    then if on then flags + bit else flags
    else if on
    then flags
    else flags - bit

unfoldable pub append_sidecar : Record × Option (List ℕ) → Option Lines → Option Lines
append_sidecar (r, signature) none = none
append_sidecar (r, none) (some lines) = some lines
append_sidecar (r, some signature) (some lines) =
    some (lines ++ (r.lsn, r.content_hash, signature) ∷ [])

unfoldable pub is_signed : Option (List ℕ) → Bool
is_signed none = false
is_signed (some signature) = true

unfoldable pub has_sidecar : Option Lines → Bool
has_sidecar none = false
has_sidecar (some lines) = true

-- What follows the write to the WORM sink.
unfoldable pub conclude :
    Outcomes → Record × Option (List ℕ) → AuditChain → SinkResult → AuditChain × AuditResult
unfolding append_sidecar is_signed has_sidecar
conclude o s c SinkResult.closed = (c, worm_failed)
conclude o s c SinkResult.chain_broken = (c, worm_failed)
conclude o s c SinkResult.accepted =
    if not o.security
    then (c, security_failed)
    else if is_signed s.1 && has_sidecar c.sidecar && not o.sidecar
    then (c, sidecar_failed)
    else (
      record c {
        sidecar = append_sidecar s c.sidecar;
        prev_content_hash = s.0.content_hash;
        prev_lsn = s.0.lsn;
      },
      processed,
    )

-- What comes after a record, unless it failed.
unfoldable pub unless_failed :
    (AuditChain → AuditChain × AuditResult) → AuditChain × AuditResult → AuditChain × AuditResult
unless_failed rest (c, processed) = rest c
unless_failed rest (c, not_audit) = (c, not_audit)
unless_failed rest (c, lsn_exhausted) = (c, lsn_exhausted)
unless_failed rest (c, worm_failed) = (c, worm_failed)
unless_failed rest (c, security_failed) = (c, security_failed)
unless_failed rest (c, sidecar_failed) = (c, sidecar_failed)

module _ (sha256 : List ℕ → List ℕ) (sign : List ℕ → List ℕ) (gap_marker : ℕ → ℕ → List ℕ)
    (envelope : Record → Option (List ℕ) → List ℕ) where
  -- The number and the digest of a record are set before it is signed, and once more by the engine.
  unfoldable pub prepared : Bool → ℕ → Record → Record
  prepared signed lsn r =
      compute_content_hash sha256
        (record r { flags = set_bit 2 signed (set_bit 4 true r.flags); lsn = lsn })

  unfoldable pub sign_record : ℕ → Record → List ℕ → Record × List ℕ
  sign_record lsn r prev_hash =
      let s = compute_content_hash sha256 (record r { lsn = lsn }) in
      (s, sign (sha256 (le 8 lsn ++ (s.content_hash ++ prev_hash))))

  -- The record and its signature, if records are signed.
  unfoldable pub stamped_record : Bool → AuditChain → Record → Record × Option (List ℕ)
  unfolding prepared sign_record
  stamped_record false c r = (prepared false (c.prev_lsn + 1) r, none)
  stamped_record true c r =
      let prev_hash = sha256 (c.prev_content_hash ++ le 8 c.prev_lsn) in
      let s = sign_record c.next_lsn (prepared true (c.prev_lsn + 1) r) prev_hash in (s.0, some s.1)

  unfoldable pub pending : AuditChain → Record × Option (List ℕ) → PendingRecord
  pending c s = record {
    data_bytes = envelope s.0 s.1;
    prev_hash = sha256 (c.prev_content_hash ++ le 8 c.prev_lsn);
    content_hash = some s.0.content_hash;
  }

  unfoldable pub process_audit_record :
      Bool → Outcomes → Record → AuditChain → AuditChain × AuditResult
  unfolding stamped_record pending conclude
  process_audit_record signed o r c =
      if not (level_is_audit r.level)
      then (c, not_audit)
      else if not (ltb (c.prev_lsn + 1) (2 ^ 64))
      then (c, lsn_exhausted)
      else let s = stamped_record signed c r in
        let w = write_worm_record_internal sha256 gap_marker o.now s.0.lsn (pending c s) c.worm in
        conclude o s
          (record c {
            worm = w.0;
            next_lsn = if signed then (c.next_lsn + 1) % 2 ^ 64 else c.next_lsn;
          })
          w.1

  -- The consumer's closure over the records that it drains: after a failure it processes no more.
  unfoldable pub drain_records :
      Bool → List (Outcomes × Record) → AuditChain → AuditChain × AuditResult
  unfolding unless_failed
  drain_records signed [] c = (c, processed)
  drain_records signed (x ∷ rest) c =
      unless_failed (λ c. drain_records signed rest c) (process_audit_record signed x.0 x.1 c)
