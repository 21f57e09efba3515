-- ===== src/Buffer/EmergencyBuffer.antt =====
-- EmergencyBuffer of core/src/buffer/emergency_buffer.rs. The spill file is its bytes and the
-- position in it; the clock, the random keys and nonces, and whether a write fails are arguments.
-- AES-GCM, the UTF-8 check and the order in which a hash set is emptied are parameters.
pub mod Drain
pub mod Frames
pub mod Pushes
pub mod Spills
pub mod Recovery
mod Tests
use mathlib.Core.Option
use do_logger.Prelude.{
  ℕ, zero, suc, ◌+◌, Bool, true, false, ◌&&◌, ◌||◌, not, Option, none, some, List, [], ◌∷◌, ◌++◌,
  ltb, leb, ◌==◌, if◌then◌else◌, length, take, drop, min,
}
use do_logger.Prelude.Bytes.{le, from_le}
use do_logger.Prelude.Words.{wrap_add64}
use do_logger.Record.Level.{LogLevel, as_u8, audit, trace, debug, info, warn, error, fatal}
use do_logger.Record.Message
use do_logger.Record.Message.{as_bytes}
use do_logger.Record.Fields.{Record, id_hi, id_lo, kv_get}
use do_logger.Record.Tags.{name_eq}

pub data EmergencyPushResult : Type 0 where
  written dropped not_active error_written : EmergencyPushResult

pub record SpillFile : Type 0 where
  pub bytes : List ℕ
  pub position : ℕ

pub record EmergencyBuffer (Key : Type 0) : Type 0 where
  pub active : Bool
  pub max_bytes : ℕ
  pub max_records : ℕ
  pub record_count : ℕ
  pub byte_count : ℕ
  pub total_spilled : ℕ
  pub total_recovered : ℕ
  pub total_dropped : ℕ
  pub total_activations : ℕ
  pub file : Option SpillFile
  pub seen_record_ids : List ℕ
  pub audit_encryption : Bool
  pub cipher : Option Key

-- How a write of some bytes goes: all are written, or it fails after so many of them.
pub data Outcome : Type 0 where
  all_written : Outcome
  failed_after : ℕ → Outcome

unfoldable pub write_at : SpillFile → List ℕ → SpillFile
write_at f bytes = record {
  bytes = take f.position f.bytes ++ (bytes ++ drop (f.position + length bytes) f.bytes);
  position = f.position + length bytes;
}

unfoldable pub is_audit_level : LogLevel → Bool
is_audit_level audit = true
is_audit_level trace = false
is_audit_level debug = false
is_audit_level info = false
is_audit_level warn = false
is_audit_level error = false
is_audit_level fatal = false

abbrev pub dlog : List ℕ
dlog = 68 ∷ 76 ∷ 79 ∷ 71 ∷ []

-- The payload of a record: `push` may panic, or fail, where it is to be encrypted.
pub data Payload : Type 0 where
  panics fails : Payload
  made : List ℕ → Payload

module _ (is_utf8 : List ℕ → Bool) where
  unfoldable pub audit_tags : Record → List ℕ
  audit_tags r = elim (kv_get r 24) [
    | none ↦ []
    | some field ↦ if field.0 == 5 && is_utf8 field.1 then field.1 else []
  ]

  unfoldable pub record_to_bytes : Record → List ℕ
  record_to_bytes r =
      let message = as_bytes r.message in
      dlog
      ++ (le 8 (id_hi r)
          ++ (le 8 (id_lo r)
              ++ (le 8 r.lsn
                  ++ (le 8 r.timestamp
                      ++ (as_u8 r.level ∷ le 2 r.flags
                          ++ (le 2 (min (length message) 65535)
                              ++ (message
                                  ++ (le 4 r.thread_id
                                      ++ (le 2 32
                                          ++ (r.content_hash
                                              ++ (le 2 (length (audit_tags r))
                                                  ++ audit_tags r)))))))))))

module _ {Key : Type 0} where
  unfoldable pub with_limits : ℕ → ℕ → EmergencyBuffer Key
  with_limits max_bytes max_records = record {
    active = false;
    max_bytes = max_bytes;
    max_records = max_records;
    record_count = 0;
    byte_count = 0;
    total_spilled = 0;
    total_recovered = 0;
    total_dropped = 0;
    total_activations = 0;
    file = none;
    seen_record_ids = [];
    audit_encryption = false;
    cipher = none;
  }

  unfoldable pub new : EmergencyBuffer Key
  new = with_limits 536870912 1000000

  unfoldable pub enable_audit_encryption : Key → EmergencyBuffer Key → EmergencyBuffer Key
  enable_audit_encryption key b = record b { cipher = some key; audit_encryption = true }

  unfoldable pub ensure_cipher : Key → EmergencyBuffer Key → EmergencyBuffer Key
  ensure_cipher key b = record b {
    cipher =
        if b.audit_encryption
        then elim b.cipher [ none ↦ some key | some k ↦ some k ]
        else b.cipher;
  }

  -- What `activate` does once it has opened a new file.
  unfoldable pub started : Key → EmergencyBuffer Key → EmergencyBuffer Key
  unfolding ensure_cipher
  started key b =
      let c = ensure_cipher key (record b { file = some (record { bytes = []; position = 0 }) }) in
      record c {
        record_count = 0;
        byte_count = 0;
        active = true;
        total_activations = wrap_add64 c.total_activations 1;
      }

  -- The directory and the file may fail to be made.
  unfoldable pub activate : Bool → Key → EmergencyBuffer Key → EmergencyBuffer Key × Bool
  activate opens key b =
      if b.active then (b, true) else if not opens then (b, false) else (started key b, true)

  unfoldable pub deactivate : EmergencyBuffer Key → EmergencyBuffer Key
  deactivate b =
      if b.active
      then record b { active = false; file = none; record_count = 0; byte_count = 0 }
      else b

  unfoldable pub clear_dedup : EmergencyBuffer Key → EmergencyBuffer Key
  clear_dedup b = record b { seen_record_ids = [] }

  -- The write of a length and a payload, to the file if there is one.
  unfoldable pub write_frame :
      Option SpillFile
      → Outcome
      → List ℕ
      → EmergencyBuffer Key
      → EmergencyBuffer Key × EmergencyPushResult
  write_frame none outcome payload b = (b, not_active)
  write_frame (some f) (failed_after k) payload b = (
    record b { file = some (write_at f (take k (le 8 (length payload) ++ payload))) },
    error_written,
  )
  write_frame (some f) all_written payload b = (
    record b {
      file = some (write_at f (le 8 (length payload) ++ payload));
      record_count = wrap_add64 b.record_count 1;
      byte_count = wrap_add64 b.byte_count (length payload + 8);
      total_spilled = wrap_add64 b.total_spilled 1;
    },
    written,
  )

  unfoldable pub write_payload :
      Payload → Outcome → EmergencyBuffer Key → Option (EmergencyBuffer Key × EmergencyPushResult)
  write_payload panics outcome b = none
  write_payload fails outcome b = some (b, error_written)
  write_payload (made payload) outcome b = some (write_frame b.file outcome payload b)

-- The payload of an encrypted record: the flag, the nonce and the ciphertext.
unfoldable pub sealed_with : List ℕ → Option (List ℕ) → Payload
sealed_with nonce none = fails
sealed_with nonce (some ciphertext) = made (255 ∷ nonce ++ ciphertext)

module _ {Key : Type 0} (encrypt : Key → List ℕ → List ℕ → Option (List ℕ)) where
  unfoldable pub encrypted_payload : Option Key → List ℕ → List ℕ → Payload
  encrypted_payload none nonce plaintext = panics
  encrypted_payload (some key) nonce plaintext = sealed_with nonce (encrypt key nonce plaintext)

module _ {Key : Type 0} (encrypt : Key → List ℕ → List ℕ → Option (List ℕ))
    (is_utf8 : List ℕ → Bool) where
  unfoldable pub payload_of : List ℕ → Record → EmergencyBuffer Key → Payload
  payload_of nonce r b =
      let plaintext = record_to_bytes is_utf8 r in
      if b.audit_encryption && is_audit_level r.level
      then encrypted_payload encrypt b.cipher nonce plaintext
      else made plaintext

  unfoldable pub push :
      List ℕ
      → Outcome
      → Record
      → EmergencyBuffer Key
      → Option (EmergencyBuffer Key × EmergencyPushResult)
  push nonce outcome r b =
      if not b.active
      then some (b, not_active)
      else if leb b.max_records b.record_count || leb b.max_bytes b.byte_count
      then some (record b { total_dropped = wrap_add64 b.total_dropped 1 }, dropped)
      else write_payload (payload_of nonce r b) outcome b
