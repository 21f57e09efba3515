-- ===== src/Sif/Frame/Encoded.antt =====
-- An encoded frame passes the checks that every frame passes first.
use do_logger.Prelude.{
  ok, ℕ, ◌≤◌, ◌≡◌, refl, Bool, true, false, List, ◌++◌, arith, ltb, length, drop, length-append,
  not, if◌then◌else◌, Result, err, replicate,
}
use do_logger.Record.Message.{
  as_bytes, MessagePayloadKind, utf8, binary, explicit_decoded_text, kind,
}
use do_logger.Record.Tags.{name_eq, Vendors}
use do_logger.Record.Fields.{Record}
use do_logger.Record.Message
use do_logger.Sif.Frame.{
  SifFrameHeader, default_options, flags_of, header_bytes, validate_frame_with, collect_entries,
  encode_record, finish, fixed_bytes, SifError, and_then, entries_bytes, is_audit, length_exceeded,
  max_field_count, max_message_size, too_many_fields,
}
use do_logger.Sif.Frame.Header.{
  Header, finished-Header, finished-tail, flags_of-small, header_of, length-fixed_bytes,
  validate_frame_with-Header,
}

-- A guard that did not refuse, and a step that did not fail.
pub if-ok :
    {A : Type 0} (c : Bool) (x : SifError) (k : Result SifError A) (out : A)
    → (if c then err x else k) ≡ ok out
    → (c ≡ false) × (k ≡ ok out)
if-ok true x k out e = cc
if-ok false x k out e = (refl, e)

pub and_then-ok :
    {A B : Type 0} (b : Result SifError A) (k : A → Result SifError B) (out : B)
    → and_then b k ≡ ok out
    → (a : A) × (b ≡ ok a) × (k a ≡ ok out)
and_then-ok (ok a) k out e = (a, refl, e)
and_then-ok (err x) k out e = cc

unfoldable pub record_flags : Record → ℕ
record_flags r =
    flags_of (is_audit r.level) (not (name_eq r.content_hash (replicate 32 0)))
      (Message.kind r.message)

-- What is known of a frame that `encode_record` returned.
pub record Encoding (v : Vendors) (r : Record) (out : List ℕ) : Type 0 where
  pub bytes : List ℕ
  pub entries : entries_bytes (collect_entries v r) ≡ ok bytes
  pub message : length (as_bytes r.message) ≤ 8388608
  pub header : Header out (record_flags r) (length (collect_entries v r))
  pub tail : drop 32 out ≡ fixed_bytes r (as_bytes r.message) ++ (as_bytes r.message ++ bytes)

pub encode_record-Encoding :
    (v : Vendors) (r : Record) (out : List ℕ)
    → length r.content_hash ≡ 32
    → encode_record v r ≡ ok out
    → Encoding v r out
unfolding encode_record record_flags
encode_record-Encoding v r out hash e =
    let count = length (collect_entries v r) in
    let message = as_bytes r.message in
    let flags = record_flags r in
    let (few, e₁) =
      if-ok (ltb max_field_count count) (too_many_fields count max_field_count) _ out e in
    let (short, e₂) =
      if-ok (ltb max_message_size (length message))
        (length_exceeded "message" (length message) max_message_size) _ out e₁ in
    let (bytes, entries, e₃) =
      and_then-ok (entries_bytes (collect_entries v r))
        (λ x. finish (header_bytes flags count ++ (fixed_bytes r message ++ (message ++ x)))) out
        e₂ in
    let rest = fixed_bytes r message ++ (message ++ bytes) in
    let (small, kinds) =
      flags_of-small (is_audit r.level) (not (name_eq r.content_hash (replicate 32 0)))
        (Message.kind r.message) in
    let long : 90 ≤ length rest = omega (
      arith,
      length-append (fixed_bytes r message) (message ++ bytes),
      length-fixed_bytes r message hash,
    ) in
    record {
      bytes = bytes;
      entries = entries;
      message = ground (arith, short);
      header = finished-Header flags count rest out small kinds (ground (arith, few)) long e₃;
      tail = finished-tail flags count rest out e₃;
    }

-- The bytes that `encode_record` returns are a frame that passes the checks of `validate_frame`;
-- the header that is read from it gives its length and the number of the record's fields. The
-- content hash of the record is of 32 bytes.
pub validate_frame_with-encode_record :
    (v : Vendors) (r : Record) (frame : List ℕ)
    → length r.content_hash ≡ 32
    → encode_record v r ≡ ok frame
    → (header : SifFrameHeader) × (validate_frame_with frame default_options ≡ ok header)
      × (header.total_length ≡ length frame)
      × (header.field_count ≡ length (collect_entries v r))
      × (122 ≤ length frame)
      × (length frame ≤ 16777216)
unfolding header_of
validate_frame_with-encode_record v r frame hash e =
    let h = (encode_record-Encoding v r frame hash e).header in
    (
      header_of (record_flags r) (length frame) (length (collect_entries v r)),
      validate_frame_with-Header frame (record_flags r) (length (collect_entries v r)) h,
      refl,
      refl,
      h.long,
      h.short,
    )
