-- ===== src/Sif/Decode/RoundTrip.antt =====
-- A record that is encoded and decoded again.
use do_logger.Prelude.{ok, err, ◌&&◌, if◌then◌else◌, ℕ, ◌≡◌, Bool, List}
use do_logger.Record.Fields.{Record}
use do_logger.Record.Tags.{Vendors}
use do_logger.Sif.Frame.{content_hash_mismatch, encode_record, options_with}
use do_logger.Sif.Frame.Encoded.{encode_record-Encoding}
use do_logger.Sif.Decode.{decode_record_with}
use do_logger.Sif.Decode.Agree.{
  IsReadable, SameRecord, is_stale, decode_record_with-frame, decoded, decoded-SameRecord,
}

-- A readable record that is encoded decodes again, whatever vendor tags the reader knows, to a
-- record that agrees with it in every fixed field, in the kind and the bytes of the message, in the
-- two halves of the identifier, and in the type and the bytes of the field of every tag but 1,
-- which is the identifier's. If the content hash is to be verified, the decoding fails instead, by
-- a mismatch and exactly if the hash of the record is not zero and is not the digest of the decoded
-- record, whose fields may be in another order; the limits of sizes and fields are the default
-- ones. Readable means that the numbers are of their widths, that text is text and was set as a
-- message, and that each field has a known type, a name that is text and valid, and a tag that is
-- not zero and that no other field has.
pub decode_record_with-encode_record :
    (is_utf8 : List ℕ → Bool) (sha256 : List ℕ → List ℕ) (v reader : Vendors) (r : Record)
    (frame : List ℕ)
    → IsReadable is_utf8 v r
    → encode_record v r ≡ ok frame
    → (r' : Record) × ((verify : Bool)
        → (decode_record_with is_utf8 sha256 reader frame (options_with verify)).1 ≡ (
            if verify && is_stale sha256 r.content_hash r'
            then err content_hash_mismatch
            else ok r'))
      × SameRecord r r'
decode_record_with-encode_record is_utf8 sha256 v reader r frame w e =
    let x = encode_record-Encoding v r frame w.hash e in
    (
      decoded is_utf8 v r frame w x,
      decode_record_with-frame is_utf8 v r frame w x sha256 reader,
      decoded-SameRecord is_utf8 v r frame w x,
    )
