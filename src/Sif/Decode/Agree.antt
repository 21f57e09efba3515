-- ===== src/Sif/Decode/Agree.antt =====
-- What is decoded from the frame of a record, and that it agrees with the record.
use do_logger.Prelude.{
  ok, err, not, ◌&&◌, replicate, ℕ, ◌+◌, ◌≡◌, refl, ap, ◌∙◌, ◌≢◌, Bool, true, false, List, [], ◌++◌,
  arith, ltb, length, take, drop, sym, inl, inr, none, some, ◌==◌, if◌then◌else◌, Option-cases, ap₂,
}
use do_logger.Prelude.Bytes.{le}
use do_logger.Record.Message.{
  MessagePayloadKind, RecordString, utf8, binary, explicit_decoded_text, as_bytes, set_with_kind,
  kind,
}
use do_logger.Record.Message
use do_logger.Record.Message.Payload.{as_bytes-set_with_kind, visible, visible-visible}
use do_logger.Record.Fields.{Record, hash_input, id_hi, id_lo, kv_get, new, set_id, slots, kv_find}
use do_logger.Record.Fields.Canonical.{InRange}
use do_logger.Record.Fields.Lookup.{
  AllValid, id_part-of, kv_get-set_id-new, id_part-absent, id_part-kv_get,
}
use do_logger.Record.Tags.{Vendors, name_eq}
use do_logger.Sif.Frame.{
  collect_entries, flags_of, content_hash_mismatch, default_options, options_with,
  validate_frame_with,
}
use do_logger.Sif.Frame.Header.{validate_frame_with-Header, header_of}
use do_logger.Sif.Frame.Encoded.{Encoding, record_flags}
use do_logger.Sif.Decode.{
  Fixed, decode_record_with, is_text, message_kind, read_entries, read_message, start_record,
  check_decoded, read_fixed,
}
use do_logger.Sif.Decode.Parts.{fixed_of, read_fixed-encoded, at_tail}
use do_logger.Sif.Decode.Reads.{drop-on, fits}
use do_logger.Prelude.Bytes.{take-front}
use do_logger.Sif.Decode.Entries.{AllAccepted, Fresh, put_all, read_entries-entries_bytes}
use do_logger.Sif.Decode.Slots.{kv_get-collect_entries, kv_get-put_all, or_before}
use do_logger.Sif.Decode.Kept.{bare, bare-put_all, bare-set_id}

message_kind-flags_of : (a h : Bool) (k : MessagePayloadKind) → message_kind (flags_of a h k) ≡ ok k
unfolding message_kind flags_of
message_kind-flags_of true true utf8 = refl
message_kind-flags_of true false utf8 = refl
message_kind-flags_of false true utf8 = refl
message_kind-flags_of false false utf8 = refl
message_kind-flags_of true true binary = refl
message_kind-flags_of true false binary = refl
message_kind-flags_of false true binary = refl
message_kind-flags_of false false binary = refl
message_kind-flags_of true true explicit_decoded_text = refl
message_kind-flags_of true false explicit_decoded_text = refl
message_kind-flags_of false true explicit_decoded_text = refl
message_kind-flags_of false false explicit_decoded_text = refl

-- A record whose frame a reader can take: the numbers are of their widths; text is text, and it was
-- set as a message; the fields have types, names and tags that are accepted, each tag once.
pub record IsReadable (is_utf8 : List ℕ → Bool) (v : Vendors) (r : Record) : Type 0 where
  pub range : InRange r
  pub hash : length r.content_hash ≡ 32
  pub text : is_text is_utf8 (Message.kind r.message) (as_bytes r.message) ≡ true
  pub before : RecordString
  pub value : List ℕ
  pub kind : MessagePayloadKind
  pub was_set : r.message ≡ set_with_kind before value kind
  pub fields : AllAccepted is_utf8 (collect_entries v r)
  pub once : Fresh [] (collect_entries v r)

-- A hash that is not zero and is not the digest of the record.
pub is_stale : (List ℕ → List ℕ) → List ℕ → Record → Bool
is_stale sha256 hash r =
    not (name_eq hash (replicate 32 0)) && not (name_eq (sha256 (hash_input r)) hash)

-- The decoded record agrees with the encoded one. The tag 1 is that of the identifier.
pub record SameRecord (r r' : Record) : Type 0 where
  pub timestamp : r'.timestamp ≡ r.timestamp
  pub level : r'.level ≡ r.level
  pub process_id : r'.process_id ≡ r.process_id
  pub thread_id : r'.thread_id ≡ r.thread_id
  pub lsn : r'.lsn ≡ r.lsn
  pub flags : r'.flags ≡ r.flags
  pub pool_index : r'.pool_index ≡ r.pool_index
  pub content_hash : r'.content_hash ≡ r.content_hash
  pub kind : Message.kind r'.message ≡ Message.kind r.message
  pub message : as_bytes r'.message ≡ as_bytes r.message
  pub id : (id_hi r' ≡ id_hi r) × (id_lo r' ≡ id_lo r)
  pub fields : (t : ℕ) → t ≢ 0 → t ≢ 1 → kv_get r' t ≡ kv_get r t

module _ (is_utf8 : List ℕ → Bool) (v : Vendors) (r : Record) (frame : List ℕ)
    (w : IsReadable is_utf8 v r) (e : Encoding v r frame) where
  abbrev pub message : List ℕ
  message = as_bytes r.message

  abbrev pub fixed : Fixed
  fixed = fixed_of r (length message)

  abbrev pub start : Record
  start = start_record fixed (Message.kind r.message) message

  abbrev pub decoded : Record
  decoded = put_all (collect_entries v r) start

  on_message : drop 122 frame ≡ message ++ e.bytes
  on_message =
      at_tail r message _ frame w.range w.hash (omega (arith, e.message)) e.tail e.header.long

  read_fixed-frame : read_fixed frame ≡ ok fixed
  read_fixed-frame =
      read_fixed-encoded r message _ frame w.range w.hash (omega (arith, e.message)) e.tail
        e.header.long

  read_message-frame : read_message is_utf8 frame (record_flags r) fixed ≡ ok start
  unfolding read_message fixed_of record_flags
  read_message-frame =
      let f = fits 122 (length message) frame message e.bytes on_message refl e.header.long in
      let a : ltb 8388608 (length message) ≡ false = ground (arith, e.message) in
      let b : ltb (length frame) (122 + length message) ≡ false = ground (arith, f) in
      let c : take (length message) (drop 122 frame) ≡ message =
        ap (take (length message)) on_message ∙ take-front (length message) message e.bytes refl in
      rw (a, b, c, message_kind-flags_of _ _ (Message.kind r.message), w.text) refl

  read_entries-frame :
      (reader : Vendors)
      → (read_entries is_utf8 frame
          (length (collect_entries v r))
          (122 + length message)
          []
          reader
          start).1
        ≡ ok (length frame, decoded)
  read_entries-frame reader =
      read_entries-entries_bytes is_utf8 (collect_entries v r) e.bytes frame []
        (122 + length message) reader start e.entries w.fields w.once
        (fits 122 (length message) frame message e.bytes on_message refl e.header.long)
        (drop-on 122 (length message) frame message e.bytes on_message refl)

  check_decoded-frame :
      (sha256 : List ℕ → List ℕ) (verify : Bool)
      → check_decoded sha256 frame (options_with verify) fixed (length frame, decoded) ≡ (
          if verify && is_stale sha256 r.content_hash decoded
          then err content_hash_mismatch
          else ok decoded)
  unfolding check_decoded fixed_of is_stale
  check_decoded-frame sha256 verify =
      let a : (length frame == length frame) ≡ true = ground arith in rw a refl

  -- The header is checked alike, whether or not the hash is verified.
  validate_frame_with-options :
      (verify : Bool)
      → validate_frame_with frame (options_with verify) ≡ validate_frame_with frame default_options
  unfolding validate_frame_with
  validate_frame_with-options verify = refl

  pub decode_record_with-frame :
      (sha256 : List ℕ → List ℕ) (reader : Vendors) (verify : Bool)
      → (decode_record_with is_utf8 sha256 reader frame (options_with verify)).1 ≡ (
          if verify && is_stale sha256 r.content_hash decoded
          then err content_hash_mismatch
          else ok decoded)
  unfolding decode_record_with header_of fixed_of
  decode_record_with-frame sha256 reader verify =
      rw
        (
          validate_frame_with-options verify,
          validate_frame_with-Header frame (record_flags r) (length (collect_entries v r)) e.header,
          decode_record_with,
          read_fixed-frame,
          decode_record_with,
          read_message-frame,
          decode_record_with,
          read_entries-frame reader,
        )
        (check_decoded-frame sha256 verify)

  AllValid-start : AllValid (slots start)
  unfolding start_record fixed_of
  AllValid-start = (kv_get-set_id-new fixed.id_hi fixed.id_lo r.pool_index).0

  -- What the record has before its fields are read.
  kv_get-start :
      (t : ℕ)
      → t ≢ 0
      → kv_get start t ≡ (if 1 == t then some (6, le 8 fixed.id_hi ++ le 8 fixed.id_lo) else none)
  unfolding start_record kv_get kv_find fixed_of
  kv_get-start t nz = (kv_get-set_id-new fixed.id_hi fixed.id_lo r.pool_index).1 t nz

  kv_get-decoded : (t : ℕ) → t ≢ 0 → kv_get decoded t ≡ or_before (kv_get r t) (kv_get start t)
  kv_get-decoded t nz =
      kv_get-put_all is_utf8 (collect_entries v r) [] start w.fields w.once AllValid-start t nz
      ∙ ap (λ o. or_before o (kv_get start t)) (sym (kv_get-collect_entries v t nz r))

  fields_kept : (t : ℕ) → t ≢ 0 → t ≢ 1 → kv_get decoded t ≡ kv_get r t
  unfolding or_before
  fields_kept t nz other =
      let g : (1 == t) ≡ false = ground arith in
      let k : kv_get start t ≡ none =
        kv_get-start t nz
        ∙ ap (λ b. if b then some (6, le 8 fixed.id_hi ++ le 8 fixed.id_lo) else none) g in
      elim (Option-cases (kv_get r t)) [
        | inl p ↦ kv_get-decoded t nz ∙ rw (p, k) refl
        | inr p ↦ kv_get-decoded t nz ∙ rw p.1 refl
      ]

  kept : bare decoded ≡ bare start
  kept = bare-put_all (collect_entries v r) start

  id_kept : (id_hi decoded ≡ id_hi r) × (id_lo decoded ≡ id_lo r)
  unfolding id_hi id_lo or_before fixed_of
  id_kept = elim (Option-cases (kv_get r 1)) [
    | inl p ↦
        let hi = id_part-absent 0 r p in
        let lo = id_part-absent 8 r p in
        let q : kv_get decoded 1 ≡ some (6, le 8 0 ++ le 8 0) =
          kv_get-decoded 1 (λ e. cc) ∙ rw (p, kv_get-start 1 (λ e. cc), hi, lo) refl in
        (
          id_part-of 0 6 _ decoded q (omega arith) ∙ sym hi,
          id_part-of 8 6 _ decoded q (omega arith) ∙ sym lo,
        )
    | inr p ↦
        let q : kv_get decoded 1 ≡ kv_get r 1 = kv_get-decoded 1 (λ e. cc) ∙ rw p.1 refl in
        (id_part-kv_get 0 decoded r q, id_part-kv_get 8 decoded r q)
  ]

  message_kept :
      (Message.kind decoded.message ≡ Message.kind r.message) × (as_bytes decoded.message ≡ message)
  unfolding start_record fixed_of
  message_kept =
      let same : decoded.message ≡ start.message = ap (λ r. r.message) kept in
      let k = w.kind in
      let was = as_bytes-set_with_kind w.before w.value k in
      let of_kind : Message.kind r.message ≡ k = ap Message.kind w.was_set ∙ was.0 in
      let of_bytes : message ≡ visible w.value k = ap as_bytes w.was_set ∙ was.1 in
      let now =
        as_bytes-set_with_kind (set_id fixed.id_hi fixed.id_lo (new r.pool_index)).message message
          (Message.kind r.message) in
      (
        ap Message.kind same ∙ now.0,
        ap as_bytes same
            ∙ now.1
            ∙ ap₂ visible of_bytes of_kind
            ∙ visible-visible w.value k
            ∙ sym of_bytes,
      )

  pub decoded-SameRecord : SameRecord r decoded
  unfolding start_record fixed_of
  decoded-SameRecord = record {
    timestamp = ap (λ r. r.timestamp) kept;
    level = ap (λ r. r.level) kept;
    process_id = ap (λ r. r.process_id) kept;
    thread_id = ap (λ r. r.thread_id) kept;
    lsn = ap (λ r. r.lsn) kept;
    flags = ap (λ r. r.flags) kept;
    pool_index =
        ap (λ r. r.pool_index) kept
        ∙ ap (λ r. r.pool_index) (bare-set_id fixed.id_hi fixed.id_lo (new r.pool_index));
    content_hash = ap (λ r. r.content_hash) kept;
    kind = message_kept.0;
    message = message_kept.1;
    id = id_kept;
    fields = fields_kept;
  }
