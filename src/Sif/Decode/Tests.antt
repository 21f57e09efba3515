-- ===== src/Sif/Decode/Tests.antt =====
-- A record that goes through encoding and decoding of core/src/sif/codec.rs.
use do_logger.Prelude.{
  ok, err, ◌&&◌, if◌then◌else◌, refl, List, [], ◌∷◌, ◌≡◌, ℕ, Bool, true, ◌++◌, replicate, arith,
}
use do_logger.Record.Kv.{string, get, type_from_u8}
use do_logger.Record.Message.{as_bytes, utf8, empty, set_with_kind, kind}
use do_logger.Record.Fields.{Record, new, kv_put, id_hi, id_lo, id_part, kv_get, kv_find, find_slot}
use do_logger.Record.Fields.Canonical.{InRange, present}
use do_logger.Sif.Decode.{has, is_text, decode_record_with}
use do_logger.Sif.Decode.Agree.{IsReadable, SameRecord, is_stale}
use do_logger.Sif.Decode.RoundTrip.{decode_record_with-encode_record}
use do_logger.Record.Tags.{no_vendors, name_eq}
use do_logger.Record.Level.{as_u8}
use do_logger.Record.Message
use do_logger.Sif.Names.{field_name_for_tag, validate_name}
use do_logger.Sif.Frame.{
  collect_entries, append_entries, entry_of, is_audit, flags_of, header_bytes, fixed_bytes,
  encode_record, entries_bytes, options_with, content_hash_mismatch,
}

-- A record with the text "hi" and a user.
abbrev hello : Record
hello = record (kv_put 4 string (117 ∷ []) (new 3)) {
  message = set_with_kind empty (104 ∷ 105 ∷ []) utf8;
}

abbrev all_text : List ℕ → Bool
all_text bytes = true

abbrev no_hash : List ℕ → List ℕ
no_hash bytes = []

abbrev frame : List ℕ
frame =
    83
    ∷ 73
    ∷ 70
    ∷ 0
    ∷ 32
    ∷ 0
    ∷ 4
    ∷ 0
    ∷ 140
    ∷ 0
    ∷ 0
    ∷ 0
    ∷ 1
    ∷ 0
    ∷ 0
    ∷ 0
    ∷ 90
    ∷ (replicate 15 0
        ++ (replicate 24 0
            ++ (2
                ∷ (replicate 25 0
                    ++ (3
                        ∷ (replicate 35 0
                            ++ (2 ∷ 0 ∷ 0 ∷ 0 ∷ 104 ∷ 105 ∷ 4 ∷ 5 ∷ 7 ∷ 0 ∷ 1 ∷ 0 ∷ 0 ∷ 0 ∷ 117
                                ∷ 115 ∷ 101 ∷ 114 ∷ 46 ∷ 105 ∷ 100 ∷ 117 ∷ [])))))))

encoded : encode_record no_vendors hello ≡ ok frame
unfolding encode_record collect_entries append_entries get entry_of field_name_for_tag as_bytes
    Message.kind is_audit flags_of name_eq entries_bytes header_bytes fixed_bytes id_hi id_lo
    id_part kv_get kv_find find_slot as_u8 kv_put set_with_kind
encoded = refl

hello-InRange : InRange hello
unfolding present get as_bytes kv_put set_with_kind
hello-InRange = record {
  timestamp = omega arith;
  process_id = omega arith;
  thread_id = omega arith;
  lsn = omega arith;
  flags = omega arith;
  pool_index = omega arith;
  message = omega arith;
  fields = (omega arith, tt);
}

hello-IsReadable : IsReadable all_text no_vendors hello
unfolding is_text collect_entries append_entries get entry_of field_name_for_tag kv_put has
    type_from_u8 validate_name Message.kind set_with_kind
hello-IsReadable = record {
  range = hello-InRange;
  hash = refl;
  text = refl;
  before = empty;
  value = 104 ∷ 105 ∷ [];
  kind = utf8;
  was_set = refl;
  fields = (record { ty = string; known = refl; tagged = λ e. cc; text = refl; name = refl }, tt);
  once = (refl, tt);
}

decode_record_with-encode_record_example :
    (r' : Record) × ((verify : Bool)
      → (decode_record_with all_text no_hash no_vendors frame (options_with verify)).1 ≡ (
          if verify && is_stale no_hash hello.content_hash r'
          then err content_hash_mismatch
          else ok r'))
    × SameRecord hello r'
decode_record_with-encode_record_example =
    decode_record_with-encode_record all_text no_hash no_vendors no_vendors hello frame
      hello-IsReadable encoded
