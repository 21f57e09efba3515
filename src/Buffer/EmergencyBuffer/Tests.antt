-- ===== src/Buffer/EmergencyBuffer/Tests.antt =====
-- A run of core/src/buffer/emergency_buffer.rs with a cipher that only adds a tag.
use mathlib.Core.Option.{some-injective}
use do_logger.Prelude.{
  ℕ, ◌≡◌, refl, sym, ap, ◌∙◌, subst, ◌++◌, ◌-◌, Bool, true, false, Option, none, some, List, [],
  ◌∷◌, arith, take, length, length-append, replicate,
}
use do_logger.Prelude.Bytes.{take-front}
use do_logger.Record.Level.{audit}
use do_logger.Record.Kv
use do_logger.Record.Message.{as_bytes}
use do_logger.Record.Fields.{
  Record, new, set_id, kv_get, kv_find, find_slot, id_lo, id_hi, id_part, kv_put, put_slot,
}
use do_logger.Buffer.EmergencyBuffer.{
  EmergencyBuffer, with_limits, activate, started, ensure_cipher, push, payload_of, write_payload,
  write_frame, write_at, encrypted_payload, sealed_with, is_audit_level, record_to_bytes,
  audit_tags, all_written,
}
use do_logger.Buffer.EmergencyBuffer.Drain.{drain_all, is_seen}
use do_logger.Buffer.EmergencyBuffer.Frames.{first_of_each, before_oversize, spilled_size}
use do_logger.Buffer.EmergencyBuffer.Pushes.{IsCipher}
use do_logger.Buffer.EmergencyBuffer.Spills.{Spills, one_spill, no_spills}
use do_logger.Buffer.EmergencyBuffer.Recovery.{drain_all-push, FitsWords, one_record, no_records}

abbrev tag_only : ℕ → List ℕ → List ℕ → Option (List ℕ)
tag_only key nonce m = some (m ++ replicate 16 key)

abbrev untag : ℕ → List ℕ → List ℕ → Option (List ℕ)
untag key nonce c = some (take (length c - 16) c)

tag_only-IsCipher : IsCipher tag_only untag
tag_only-IsCipher = record {
  longer = λ key nonce m c e.
      let q = some-injective _ _ e in
      let l = length-append m (replicate 16 key) in sym (ap length q) ∙ l;
  again = λ key nonce m c n e.
      let q = some-injective _ _ e in
      let l = length-append m (replicate 16 key) in
      let k : length m ≡ length (m ++ replicate 16 key) - 16 = omega arith in
      subst (λ c. untag key nonce c ≡ some m) q (ap some (take-front _ m (replicate 16 key) k));
}

abbrev no_text : List ℕ → Bool
no_text bytes = false

abbrev zeros : List ℕ
zeros = replicate 12 0

-- Encryption is on; two of the records have no identifier, one of them is an audit record.
abbrev before : EmergencyBuffer ℕ
before = record (with_limits 1000 10) { audit_encryption = true; cipher = some 5 }

abbrev second : Record
second = record (new 0) { level = audit }

abbrev third : Record
third = set_id 0 9 (new 1)

abbrev spill : Record → EmergencyBuffer ℕ → EmergencyBuffer ℕ
spill r b = elim (push tag_only no_text zeros all_written r b) [ none ↦ b | some (c, result) ↦ c ]

abbrev start : EmergencyBuffer ℕ
start = (activate true 7 before).0

abbrev pushes :
    Spills tag_only no_text start
      (new 0 ∷ second ∷ third ∷ [])
      (spill third (spill second (spill (new 0) start)))
unfolding with_limits activate started ensure_cipher push payload_of write_payload write_frame
    write_at encrypted_payload sealed_with is_audit_level record_to_bytes as_bytes audit_tags kv_get
    kv_find find_slot Kv.get id_lo id_hi id_part set_id kv_put put_slot
pushes = one_spill (new 0) zeros all_written refl refl (
    one_spill second zeros all_written refl refl
      (one_spill third zeros all_written refl refl no_spills))

fits_words : FitsWords no_text true (new 0 ∷ second ∷ third ∷ [])
unfolding record_to_bytes as_bytes audit_tags kv_get kv_find find_slot id_lo id_hi id_part set_id
    kv_put put_slot spilled_size is_audit_level
fits_words =
    one_record (omega arith) (omega arith)
      (one_record (omega arith) (omega arith) (one_record (omega arith) (omega arith) no_records))

drain_all-push_example :
    (drain_all untag (λ seen. seen) (spill third (spill second (spill (new 0) start)))).1
    ≡ record_to_bytes no_text (new 0) ∷ record_to_bytes no_text third ∷ []
unfolding with_limits first_of_each before_oversize spilled_size is_audit_level record_to_bytes
    as_bytes audit_tags kv_get is_seen id_lo id_part set_id kv_put
drain_all-push_example =
    drain_all-push tag_only untag (λ seen. seen) no_text 7 before
      (spill third (spill second (spill (new 0) start))) (new 0 ∷ second ∷ third ∷ [])
      tag_only-IsCipher refl refl pushes (omega arith) fits_words
