-- ===== src/Sif/Decode.antt =====
-- Decoding a frame in core/src/sif/codec.rs. Whether bytes are UTF-8 and the digest are parameters.
-- The fixed bytes of a frame that passed its checks end at 122. Positions in a frame do not
-- overflow, so that the errors of `checked_add` are left out. Vendor tags that a frame brings stay
-- in the table also when a later field is refused.
pub mod Reads
pub mod Parts
pub mod Entries
pub mod Slots
pub mod Kept
pub mod Agree
pub mod RoundTrip
mod Tests
use mathlib.Core.Option
use Prim.Native.Nat.{bit_and}
use do_logger.Prelude.{
  ℕ, zero, suc, ◌+◌, ◌-◌, Bool, true, false, not, ◌&&◌, ◌||◌, Option, none, some, List, [], ◌∷◌,
  ltb, leb, ◌==◌, if◌then◌else◌, length, take, drop, replicate, get_elem?, Result, ok, err,
}
use do_logger.Record.Level.{LogLevel, from_u8}
use do_logger.Record.Kv.{KvType, type_from_u8}
use do_logger.Record.Message.{
  MessagePayloadKind, RecordString, utf8, binary, explicit_decoded_text, set_with_kind,
}
use do_logger.Record.Fields.{Record, new, set_id, put_slot, hash_input, id_hi, id_lo}
use do_logger.Record.Tags.{Name, Vendors, name_eq}
use do_logger.Sif.Names.{field_name_for_tag, register_vendor_tag, validate_name}
use do_logger.Sif.Frame.{
  SifError, truncated, invalid_level, length_exceeded, invalid_message_kind, invalid_utf8,
  unknown_type, duplicate_tag, invalid_field_name, field_apply, length_mismatch,
  content_hash_mismatch, DecodeOptions, Entry, and_then, read, validate_frame_with, max_field_name,
  max_field_value, max_message_size,
}

-- `*frame.get(offset).ok_or(...)`
unfoldable pub get_byte : List ℕ → ℕ → Result SifError ℕ
get_byte frame offset = elim (get_elem? frame offset) [
  | none ↦ err (truncated offset 1)
  | some b ↦ ok b
]

-- `read_array`
unfoldable pub read_array : ℕ → List ℕ → ℕ → Result SifError (List ℕ)
read_array n bytes offset =
    if leb (offset + n) (length bytes)
    then ok (take n (drop offset bytes))
    else err (truncated offset n)

-- The fixed bytes of a frame, and the length of the message behind them.
pub record Fixed : Type 0 where
  pub id_hi : ℕ
  pub id_lo : ℕ
  pub timestamp : ℕ
  pub level : LogLevel
  pub thread_id : ℕ
  pub process_id : ℕ
  pub lsn : ℕ
  pub flags : ℕ
  pub pool_index : ℕ
  pub content_hash : List ℕ
  pub message_len : ℕ

unfoldable pub level_of : ℕ → Result SifError LogLevel
unfolding from_u8
level_of b = elim (from_u8 b) [ none ↦ err (invalid_level b) | some l ↦ ok l ]

-- The reads of `decode_record_with`, in its order; the fixed bytes start at 32.
unfoldable pub read_fixed : List ℕ → Result SifError Fixed
read_fixed frame = and_then (read 8 frame 32) (λ id_hi. and_then (read 8 frame 40) (λ id_lo.
    and_then (read 8 frame 48) (λ timestamp. and_then (get_byte frame 56) (λ level_raw.
      and_then (level_of level_raw) (λ level. and_then (read 4 frame 64) (λ thread_id.
        and_then (read 4 frame 68) (λ process_id. and_then (read 8 frame 72) (λ lsn.
          and_then (read 2 frame 80) (λ flags. and_then (read 4 frame 82) (λ pool_index.
            and_then (read_array 32 frame 86) (λ content_hash.
              and_then (read 4 frame 118) (λ message_len. ok (record {
                id_hi = id_hi;
                id_lo = id_lo;
                timestamp = timestamp;
                level = level;
                thread_id = thread_id;
                process_id = process_id;
                lsn = lsn;
                flags = flags;
                pool_index = pool_index;
                content_hash = content_hash;
                message_len = message_len;
              })))))))))))))

unfoldable pub message_kind : ℕ → Result SifError MessagePayloadKind
message_kind flags =
    if bit_and flags 24 == 0
    then ok utf8
    else if bit_and flags 24 == 8
    then ok binary
    else if bit_and flags 24 == 16
    then ok explicit_decoded_text
    else err invalid_message_kind

-- `tags.insert` is false for a tag that is there.
unfoldable pub has : ℕ → List ℕ → Bool
has tag [] = false
has tag (t ∷ ts) = t == tag || has tag ts

-- `put_wire_slot` with its `wire_put`, which fails by the type and the tag alone.
unfoldable pub put_wire_slot : Vendors → ℕ → ℕ → List ℕ → Record → Result SifError Record
put_wire_slot v tag ty value r = elim (type_from_u8 ty) [
  | none ↦ err (field_apply (field_name_for_tag v tag))
  | some t ↦
      if tag == 0 then err (field_apply (field_name_for_tag v tag)) else ok (put_slot tag t value r)
]

-- The record before its fields are read.
unfoldable pub start_record : Fixed → MessagePayloadKind → List ℕ → Record
start_record f k message =
    let r = set_id f.id_hi f.id_lo (new f.pool_index) in
    record r {
      timestamp = f.timestamp;
      level = f.level;
      thread_id = f.thread_id;
      process_id = f.process_id;
      lsn = f.lsn;
      flags = f.flags;
      content_hash = f.content_hash;
      message = set_with_kind r.message message k;
    }

-- What is checked when the fields are read.
unfoldable pub check_decoded :
    (List ℕ → List ℕ) → List ℕ → DecodeOptions → Fixed → ℕ × Record → Result SifError Record
check_decoded sha256 frame options f (cursor, r) =
    if not (cursor == length frame)
    then err (length_mismatch (length frame) cursor)
    else if options.verify_content_hash
        && (not (name_eq f.content_hash (replicate 32 0))
            && not (name_eq (sha256 (hash_input r)) f.content_hash))
    then err content_hash_mismatch
    else ok r

module _ (is_utf8 : List ℕ → Bool) where
  unfoldable pub is_text : MessagePayloadKind → List ℕ → Bool
  is_text binary bytes = true
  is_text utf8 bytes = is_utf8 bytes
  is_text explicit_decoded_text bytes = is_utf8 bytes

  -- A field at the cursor with the position behind it, given the tags that were read before.
  unfoldable pub read_entry : List ℕ → ℕ → List ℕ → Result SifError (Entry × ℕ)
  read_entry frame cursor tags = and_then (get_byte frame cursor) (λ tag.
      and_then (get_byte frame (cursor + 1)) (λ ty. elim (type_from_u8 ty) [
        | none ↦ err (unknown_type ty)
        | some t ↦ and_then (read 2 frame (cursor + 2)) (λ name_len.
            and_then (read 4 frame (cursor + 4)) (λ value_len.
              let start = cursor + 8 in
              let name_end = start + name_len in
              let value_end = name_end + value_len in
              let name = take name_len (drop start frame) in
              if tag == 0 || has tag tags
              then err (duplicate_tag tag)
              else if name_len == 0 || ltb max_field_name name_len
              then err invalid_field_name
              else if ltb max_field_value value_len
              then err (length_exceeded "field value" value_len max_field_value)
              else if ltb (length frame) value_end
              then err (truncated start (value_end - length frame))
              else if not (is_utf8 name)
              then err invalid_utf8
              else if not (validate_name name)
              then err invalid_field_name
              else ok (
                record {
                  tag = tag;
                  ty = ty;
                  name = name;
                  value = take value_len (drop name_end frame);
                },
                value_end,
              )))
      ]))

  -- The loop over the fields: how many are left, the cursor and the tags read before.
  unfoldable pub read_entries :
      List ℕ → ℕ → ℕ → List ℕ → Vendors → Record → Vendors × Result SifError (ℕ × Record)
  read_entries frame zero cursor tags v r = (v, ok (cursor, r))
  read_entries frame (suc left) cursor tags v r = elim (read_entry frame cursor tags) [
    | err e ↦ (v, err e)
    | ok (e, next) ↦
        let v' = if ltb 63 e.tag then register_vendor_tag e.name e.tag v else v in
        elim (put_wire_slot v' e.tag e.ty e.value r) [
          | err x ↦ (v', err x)
          | ok r' ↦ read_entries frame left next (e.tag ∷ tags) v' r'
        ]
  ]

  -- What is checked behind the fixed bytes, before the fields.
  unfoldable pub read_message : List ℕ → ℕ → Fixed → Result SifError Record
  read_message frame header_flags f =
      if ltb max_message_size f.message_len || ltb (length frame) (122 + f.message_len)
      then err (length_exceeded "message" f.message_len max_message_size)
      else let message = take f.message_len (drop 122 frame) in
        and_then (message_kind header_flags)
          (λ k. if not (is_text k message) then err invalid_utf8 else ok (start_record f k message))

  module _ (sha256 : List ℕ → List ℕ) where
    unfoldable pub decode_record_with :
        Vendors → List ℕ → DecodeOptions → Vendors × Result SifError Record
    decode_record_with v frame options = elim (validate_frame_with frame options) [
      | err e ↦ (v, err e)
      | ok header ↦ elim (read_fixed frame) [
        | err e ↦ (v, err e)
        | ok f ↦ elim (read_message frame header.flags f) [
          | err e ↦ (v, err e)
          | ok r ↦
              let (v', result) =
                read_entries frame header.field_count (122 + f.message_len) [] v r in
              (v', and_then result (check_decoded sha256 frame options f))
        ]
      ]
    ]
