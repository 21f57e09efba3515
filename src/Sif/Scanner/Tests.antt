-- ===== src/Sif/Scanner/Tests.antt =====
-- A record that goes through the scanner of core/src/sif/codec.rs.
use do_logger.Prelude.{ok, List, [], ◌∷◌, ℕ, ◌≡◌, ◌++◌, replicate, refl, some, arith, take, drop}
use do_logger.Record.Kv.{get}
use do_logger.Record.Level.{as_u8}
use do_logger.Record.Message.{as_bytes, kind}
use do_logger.Record.Message
use do_logger.Record.Fields.{new, id_hi, id_lo, id_part, kv_get, kv_find, find_slot}
use do_logger.Record.Tags.{no_vendors, name_eq}
use do_logger.Sif.Frame.{
  encode_record, append_entries, collect_entries, entries_bytes, fixed_bytes, flags_of,
  header_bytes, is_audit,
}
use do_logger.Sif.Scanner.{FrameScanner, feed, next_frame, encode_length_prefixed}
use do_logger.Sif.Scanner.Stream.{unread, next_frame-encode_length_prefixed}

-- A new record as a frame: the header, and fixed bytes that are zero but for the level and the
-- index.
abbrev new_bytes : List ℕ
new_bytes =
    122
    ∷ 0
    ∷ 0
    ∷ 0
    ∷ 83
    ∷ 73
    ∷ 70
    ∷ 0
    ∷ 32
    ∷ 0
    ∷ 4
    ∷ 0
    ∷ 122
    ∷ 0
    ∷ 0
    ∷ 0
    ∷ (replicate 4 0
        ++ (90
            ∷ (replicate 15 0
                ++ (replicate 24 0 ++ (2 ∷ (replicate 25 0 ++ (3 ∷ replicate 39 0)))))))

encoded : encode_length_prefixed no_vendors (new 3) ≡ ok new_bytes
unfolding encode_length_prefixed encode_record collect_entries append_entries get as_bytes
    Message.kind is_audit flags_of name_eq entries_bytes header_bytes fixed_bytes id_hi id_lo
    id_part kv_get kv_find find_slot as_u8
encoded = refl

-- The scanner has the first five bytes; the chunk is the rest and one byte more.
abbrev five : FrameScanner
five = record {
  buffer = take 5 new_bytes;
  cursor = 0;
  max_frame_size = 16777216;
  frames_seen = 0;
  bytes_seen = 5;
}

abbrev chunk : List ℕ
chunk = drop 5 new_bytes ++ 9 ∷ []

abbrev fed : FrameScanner
fed = record {
  buffer = new_bytes ++ 9 ∷ [];
  cursor = 0;
  max_frame_size = 16777216;
  frames_seen = 0;
  bytes_seen = 127;
}

fed_by_chunk : feed 0 chunk five ≡ ok fed
unfolding feed
fed_by_chunk = refl

next_frame-encode_length_prefixed_example :
    (frame : List ℕ) × (encode_record no_vendors (new 3) ≡ ok frame)
    × ((next_frame 300 fed).1 ≡ ok (some frame))
    × (unread (next_frame 300 fed).0 ≡ 9 ∷ [])
next_frame-encode_length_prefixed_example =
    next_frame-encode_length_prefixed no_vendors (new 3) new_bytes chunk (9 ∷ []) five fed 0 300
      refl encoded (omega arith) refl refl fed_by_chunk
