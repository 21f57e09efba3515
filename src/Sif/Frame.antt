-- ===== src/Sif/Frame.antt =====
-- The frames of core/src/sif/codec.rs: how a record is encoded, and the checks that a frame passes
-- before it is decoded. A frame is a list of bytes.
pub mod Header
pub mod Encoded
use Prim.Native.String.{String}
use Prim.Native.Nat.{bit_and, bit_or}
use mathlib.Core.Option
use do_logger.Prelude.{
  ℕ, ◌+◌, ◌-◌, Bool, true, false, not, ◌&&◌, ◌||◌, Option, none, some, List, [], ◌∷◌, ◌++◌, ltb,
  leb, ◌==◌, if◌then◌else◌, length, take, drop, replicate, Result, ok, err,
}
use do_logger.Prelude.Bytes.{le, from_le}
use do_logger.Record.Level.{LogLevel, trace, debug, info, warn, error, fatal, audit, as_u8}
use do_logger.Record.Kv.{KvSlot, get}
use do_logger.Record.Message.{
  MessagePayloadKind, utf8, binary, explicit_decoded_text, as_bytes, kind,
}
use do_logger.Record.Message
use do_logger.Record.Fields.{Record, id_hi, id_lo, slots}
use do_logger.Record.Tags.{Name, Vendors, name_eq}
use do_logger.Sif.Names.{field_name_for_tag}

pub data SifError : Type 0 where
  truncated : ℕ → ℕ → SifError
  invalid_magic : SifError
  invalid_header_length : ℕ → ℕ → SifError
  length_mismatch : ℕ → ℕ → SifError
  length_exceeded : String → ℕ → ℕ → SifError
  too_many_fields : ℕ → ℕ → SifError
  duplicate_tag : ℕ → SifError
  invalid_utf8 : SifError
  invalid_message_kind : SifError
  invalid_field_name : SifError
  unknown_type : ℕ → SifError
  invalid_level : ℕ → SifError
  field_apply : Name → SifError
  content_hash_mismatch : SifError
  encode_overflow : String → SifError

abbrev pub sif_magic : List ℕ
sif_magic = 83 ∷ 73 ∷ 70 ∷ 0 ∷ []

abbrev pub sif_header_len : ℕ
sif_header_len = 32

abbrev pub sif_fixed_len : ℕ
sif_fixed_len = 90

abbrev pub max_frame_size : ℕ
max_frame_size = 16777216

abbrev pub max_field_count : ℕ
max_field_count = 1024

abbrev pub max_field_name : ℕ
max_field_name = 1024

abbrev pub max_message_size : ℕ
max_message_size = 8388608

abbrev pub max_field_value : ℕ
max_field_value = 8388608

pub record DecodeOptions : Type 0 where
  pub max_frame_size : ℕ
  pub max_field_count : ℕ
  pub verify_content_hash : Bool

abbrev pub default_options : DecodeOptions
default_options = record {
  max_frame_size = max_frame_size;
  max_field_count = max_field_count;
  verify_content_hash = false;
}

-- `untrusted` and `audit` differ from `default_options` in that the hash is verified.
abbrev pub options_with : Bool → DecodeOptions
options_with verify = record default_options { verify_content_hash = verify }

pub record SifFrameHeader : Type 0 where
  pub flags : ℕ
  pub total_length : ℕ
  pub field_count : ℕ
  pub fixed_length : ℕ

-- The `?` of the source.
abbrev pub and_then :
    {A B : Type 0} → Result SifError A → (A → Result SifError B) → Result SifError B
and_then (ok a) k = k a
and_then (err e) k = err e

-- `read_u16` and `read_u32`, by their width in bytes.
unfoldable pub read : ℕ → List ℕ → ℕ → Result SifError ℕ
read width bytes offset =
    if leb (offset + width) (length bytes)
    then ok (from_le (take width (drop offset bytes)))
    else err (truncated offset width)

-- Both flags of the message kind are set.
unfoldable pub kinds_conflict : ℕ → Bool
kinds_conflict flags = not (bit_and flags 8 == 0) && not (bit_and flags 16 == 0)

unfoldable pub validate_frame_with : List ℕ → DecodeOptions → Result SifError SifFrameHeader
unfolding name_eq read kinds_conflict
validate_frame_with frame options =
    if ltb options.max_frame_size (length frame)
    then err (length_exceeded "frame" (length frame) options.max_frame_size)
    else if ltb (length frame) sif_header_len
    then err (truncated (length frame) (sif_header_len - length frame))
    else if not (name_eq (take 4 frame) sif_magic)
    then err invalid_magic
    else and_then (read 2 frame 4) (λ header_len.
      if not (header_len == sif_header_len)
      then err (invalid_header_length header_len sif_header_len)
      else and_then (read 2 frame 6) (λ flags.
        if kinds_conflict flags
        then err invalid_message_kind
        else and_then (read 4 frame 8) (λ total_length.
          if not (total_length == length frame)
          then err (length_mismatch total_length (length frame))
          else if ltb options.max_frame_size total_length
          then err (length_exceeded "declared frame" total_length options.max_frame_size)
          else and_then (read 4 frame 12) (λ field_count.
            if ltb options.max_field_count field_count
            then err (too_many_fields field_count options.max_field_count)
            else and_then (read 4 frame 16) (λ fixed_length.
              if not (fixed_length == sif_fixed_len)
              then err (invalid_header_length fixed_length sif_fixed_len)
              else if ltb total_length (sif_header_len + fixed_length)
              then err (truncated total_length (sif_header_len + fixed_length - total_length))
              else ok (record {
                flags = flags;
                total_length = total_length;
                field_count = field_count;
                fixed_length = fixed_length;
              }))))))

pub record Entry : Type 0 where
  pub tag : ℕ
  pub ty : ℕ
  pub name : Name
  pub value : List ℕ

unfoldable pub entry_of : Vendors → ℕ × ℕ × List ℕ → Entry
entry_of v (tag, ty, value) = record {
  tag = tag;
  ty = ty;
  name = field_name_for_tag v tag;
  value = value;
}

unfoldable pub append_entries : Vendors → List KvSlot → List Entry
unfolding get entry_of
append_entries v [] = []
append_entries v (s ∷ rest) = elim (get s) [
  | none ↦ append_entries v rest
  | some field ↦ entry_of v field ∷ append_entries v rest
]

unfoldable pub collect_entries : Vendors → Record → List Entry
unfolding append_entries
collect_entries v r = append_entries v (slots r)

-- What the loop over the fields appends for one of them.
unfoldable pub entry_bytes : Entry → Result SifError (List ℕ)
entry_bytes e =
    if ltb max_field_name (length e.name)
    then err (length_exceeded "field name" (length e.name) max_field_name)
    else if ltb max_field_value (length e.value)
    then err (length_exceeded "field value" (length e.value) max_field_value)
    else if ltb 65535 (length e.name)
    then err (encode_overflow "field name")
    else if ltb 4294967295 (length e.value)
    then err (encode_overflow "field value")
    else ok
        (e.tag ∷ e.ty ∷ (le 2 (length e.name) ++ (le 4 (length e.value) ++ (e.name ++ e.value))))

unfoldable pub entries_bytes : List Entry → Result SifError (List ℕ)
unfolding entry_bytes
entries_bytes [] = ok []
entries_bytes (e ∷ rest) =
    and_then (entry_bytes e) (λ bs. and_then (entries_bytes rest) (λ cs. ok (bs ++ cs)))

unfoldable pub is_audit : LogLevel → Bool
is_audit audit = true
is_audit trace = false
is_audit debug = false
is_audit info = false
is_audit warn = false
is_audit error = false
is_audit fatal = false

pub kind_flag : MessagePayloadKind → ℕ
kind_flag utf8 = 0
kind_flag binary = 8
kind_flag explicit_decoded_text = 16

-- The flags, by whether the level is audit, whether there is a hash, and the kind of the message.
unfoldable pub flags_of : Bool → Bool → MessagePayloadKind → ℕ
unfolding kind_flag
flags_of at_audit has_hash k =
    let f : ℕ = if at_audit then bit_or 4 2 else 4 in
    let g : ℕ = if has_hash then bit_or f 1 else f in bit_or g (kind_flag k)

unfoldable pub header_bytes : ℕ → ℕ → List ℕ
header_bytes flags count =
    sif_magic
    ++ (le 2 sif_header_len
        ++ (le 2 flags
            ++ (le 4 0 ++ (le 4 count ++ (le 4 sif_fixed_len ++ (le 4 0 ++ (le 4 0 ++ le 4 0)))))))

unfoldable pub fixed_bytes : Record → List ℕ → List ℕ
fixed_bytes r message =
    le 8 (id_hi r)
    ++ (le 8 (id_lo r)
        ++ (le 8 r.timestamp
            ++ (as_u8 r.level
                ∷ (replicate 7 0
                    ++ (le 4 r.thread_id
                        ++ (le 4 r.process_id
                            ++ (le 8 r.lsn
                                ++ (le 2 r.flags
                                    ++ (le 4 r.pool_index
                                        ++ (r.content_hash ++ le 4 (length message)))))))))))

-- `frame[8..12].copy_from_slice(&total.to_le_bytes())`
unfoldable pub set_total : List ℕ → List ℕ
set_total frame = take 8 frame ++ (le 4 (length frame) ++ drop 12 frame)

unfoldable pub finish : List ℕ → Result SifError (List ℕ)
unfolding set_total
finish frame =
    if ltb 4294967295 (length frame)
    then err (encode_overflow "frame")
    else let out = set_total frame in
      if ltb max_frame_size (length out)
      then err (length_exceeded "frame" (length out) max_frame_size)
      else ok out

unfoldable pub encode_record : Vendors → Record → Result SifError (List ℕ)
unfolding finish
encode_record v r =
    let fields = collect_entries v r in
    let message = as_bytes r.message in
    if ltb max_field_count (length fields)
    then err (too_many_fields (length fields) max_field_count)
    else if ltb max_message_size (length message)
    then err (length_exceeded "message" (length message) max_message_size)
    else let flags =
        flags_of (is_audit r.level) (not (name_eq r.content_hash (replicate 32 0)))
          (Message.kind r.message) in
      and_then (entries_bytes fields) (λ bytes.
        finish
          (header_bytes flags (length fields) ++ (fixed_bytes r message ++ (message ++ bytes))))
