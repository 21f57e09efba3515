-- ===== src/Sif/Scanner.antt =====
-- The stream of frames in core/src/sif/codec.rs: frames behind their length, and the scanner that
-- cuts them out again. The capacity of the buffer is the allocator's: `compact` takes it as an
-- argument. Positions in the buffer do not overflow, so that the error of `checked_add` is left
-- out.
pub mod Stream
mod Tests
use do_logger.Prelude.{
  ℕ, ◌+◌, ◌-◌, ◌/◌, ok, err, ◌||◌, Option, none, some, List, [], ◌++◌, ltb, ◌==◌, if◌then◌else◌,
  Result, length, take, drop,
}
use do_logger.Prelude.Words.{sat_add64}
use do_logger.Record.Fields.{Record}
use do_logger.Prelude.Bytes.{le, from_le}
use do_logger.Record.Tags.{Vendors}
use do_logger.Sif.Frame.{
  SifError, and_then, default_options, validate_frame_with, encode_overflow, encode_record,
  length_exceeded, max_frame_size, sif_fixed_len, sif_header_len,
}

pub record FrameScanner : Type 0 where
  pub buffer : List ℕ
  pub cursor : ℕ
  pub max_frame_size : ℕ
  pub frames_seen : ℕ
  pub bytes_seen : ℕ

pub new : ℕ → Result SifError FrameScanner
new max_frame_size =
    if ltb max_frame_size (sif_header_len + sif_fixed_len) || ltb 16777216 max_frame_size
    then err (length_exceeded "scanner budget" max_frame_size 16777216)
    else ok (record {
      buffer = [];
      cursor = 0;
      max_frame_size = max_frame_size;
      frames_seen = 0;
      bytes_seen = 0;
    })

unfoldable pub compact : ℕ → FrameScanner → FrameScanner
compact capacity s =
    if s.cursor == 0
    then s
    else if s.cursor == length s.buffer
    then record s { buffer = []; cursor = 0 }
    else if ltb (capacity / 2) s.cursor
    then record s { buffer = drop s.cursor s.buffer; cursor = 0 }
    else s

unfoldable pub feed : ℕ → List ℕ → FrameScanner → Result SifError FrameScanner
unfolding compact
feed capacity chunk s =
    if ltb (18446744073709551615 - s.bytes_seen) (length chunk)
    then err (encode_overflow "stream bytes")
    else if ltb (sat_add64 s.max_frame_size 4)
        (sat_add64 (length s.buffer - s.cursor) (length chunk))
    then err (
        length_exceeded "stream buffer" (length s.buffer - s.cursor + length chunk)
          (s.max_frame_size + 4))
    else let s' = compact capacity s in
      ok (record s' {
        buffer = s'.buffer ++ chunk;
        bytes_seen = sat_add64 s'.bytes_seen (length chunk);
      })

-- A frame that is refused leaves the scanner as it was.
unfoldable pub next_frame : ℕ → FrameScanner → FrameScanner × Result SifError (Option (List ℕ))
unfolding compact
next_frame capacity s =
    if ltb (length s.buffer - s.cursor) 4
    then (s, ok none)
    else let size = from_le (take 4 (drop s.cursor s.buffer)) in
      let end = s.cursor + 4 + size in
      if ltb size (sif_header_len + sif_fixed_len) || ltb s.max_frame_size size
      then (s, err (length_exceeded "stream frame" size s.max_frame_size))
      else if ltb (length s.buffer) end
      then (s, ok none)
      else let frame = take size (drop (s.cursor + 4) s.buffer) in
        elim (validate_frame_with frame default_options) [
          | err e ↦ (s, err e)
          | ok header ↦ (
            compact capacity (record s { cursor = end; frames_seen = sat_add64 s.frames_seen 1 }),
            ok (some frame),
          )
        ]

pub record ScannerStats : Type 0 where
  pub frames_seen : ℕ
  pub bytes_seen : ℕ
  pub buffered_bytes : ℕ

pub stats : FrameScanner → ScannerStats
stats s = record {
  frames_seen = s.frames_seen;
  bytes_seen = s.bytes_seen;
  buffered_bytes = length s.buffer - s.cursor;
}

pub reset : FrameScanner → FrameScanner
reset s = record s { buffer = []; cursor = 0; frames_seen = 0; bytes_seen = 0 }

unfoldable pub encode_length_prefixed : Vendors → Record → Result SifError (List ℕ)
encode_length_prefixed v r = and_then (encode_record v r) (λ frame.
    if ltb 4294967295 (length frame)
    then err (encode_overflow "stream frame")
    else ok (le 4 (length frame) ++ frame))
