-- ===== src/Sif/Scanner/Stream.antt =====
-- A record that enters a stream comes out of the scanner as its frame, and what follows stays.
use do_logger.Prelude.Words.{sat_add64}
use do_logger.Prelude.{
  ok, err, ℕ, ◌+◌, ◌-◌, ◌/◌, ◌≤◌, ◌≡◌, refl, sym, ap, ◌∙◌, inl, inr, List, ◌++◌, arith, ltb, ◌==◌,
  Bool-cases, length, drop, ◌<◌, subst, false, some, length-append, take, if◌then◌else◌,
  length-drop,
}
use do_logger.Prelude.Bytes.{
  le, from_le, from_le-le, take-append, drop-append, drop-all, drop-before, drop-drop,
}
use do_logger.Record.Fields.{Record}
use do_logger.Record.Tags.{Vendors}
use do_logger.Sif.Frame.{
  SifFrameHeader, encode_record, validate_frame_with, default_options, encode_overflow,
  length_exceeded,
}
use do_logger.Sif.Frame.Encoded.{if-ok, and_then-ok, validate_frame_with-encode_record}
use do_logger.Sif.Scanner.{FrameScanner, compact, feed, next_frame, encode_length_prefixed}

abbrev pub unread : FrameScanner → List ℕ
unread s = drop s.cursor s.buffer

compact-keeps :
    (capacity : ℕ) (s : FrameScanner)
    → s.cursor ≤ length s.buffer
    → (unread (compact capacity s) ≡ unread s)
      × ((compact capacity s).cursor ≤ length (compact capacity s).buffer)
      × ((compact capacity s).max_frame_size ≡ s.max_frame_size)
unfolding compact
compact-keeps capacity s h = elim (Bool-cases (s.cursor == 0)) [
  | inl a ↦ rw a (refl, h, refl)
  | inr a ↦ rw a (elim (Bool-cases (s.cursor == length s.buffer)) [
    | inl b ↦
        rw b (
          sym (ap (λ n. drop n s.buffer) (ground (arith, b)) ∙ drop-all s.buffer),
          omega arith,
          refl,
        )
    | inr b ↦ rw b (elim (Bool-cases (ltb (capacity / 2) s.cursor)) [
      | inl c ↦ rw c (refl, omega arith, refl)
      | inr c ↦ rw c (refl, h, refl)
    ])
  ])
]

feed-ok :
    (capacity : ℕ) (chunk : List ℕ) (s s' : FrameScanner)
    → s.cursor ≤ length s.buffer
    → feed capacity chunk s ≡ ok s'
    → (unread s' ≡ unread s ++ chunk)
      × (s'.cursor ≤ length s'.buffer)
      × (s'.max_frame_size ≡ s.max_frame_size)
unfolding feed
feed-ok capacity chunk s s' h e =
    let (_, e₁) =
      if-ok (ltb (18446744073709551615 - s.bytes_seen) (length chunk))
        (encode_overflow "stream bytes") _ s' e in
    let (_, e₂) =
      if-ok
        (ltb (sat_add64 s.max_frame_size 4) (sat_add64 (length s.buffer - s.cursor) (length chunk)))
        (length_exceeded "stream buffer" (length s.buffer - s.cursor + length chunk)
          (s.max_frame_size + 4))
        _ s' e₁ in
    let c = compact capacity s in
    let k = compact-keeps capacity s h in
    let fed : FrameScanner = record c {
      buffer = c.buffer ++ chunk;
      bytes_seen = sat_add64 c.bytes_seen (length chunk);
    } in
    let e₃ : fed ≡ s' = cc e₂ in
    subst
      (λ x.
        (unread x ≡ unread s ++ chunk)
        × (x.cursor ≤ length x.buffer)
        × (x.max_frame_size ≡ s.max_frame_size))
      e₃
      (
        drop-before c.cursor c.buffer chunk k.1 ∙ ap (λ l. l ++ chunk) k.0,
        omega (arith, length-append c.buffer chunk, k.1),
        k.2,
      )

-- The scanner takes a frame that is whole and that passes the checks.
next_frame-taken :
    (capacity : ℕ) (s : FrameScanner) (frame rest : List ℕ) (header : SifFrameHeader)
    → s.cursor ≤ length s.buffer
    → unread s ≡ le 4 (length frame) ++ (frame ++ rest)
    → 122 ≤ length frame
    → length frame ≤ s.max_frame_size
    → length frame < 4294967296
    → validate_frame_with frame default_options ≡ ok header
    → ((next_frame capacity s).1 ≡ ok (some frame)) × (unread (next_frame capacity s).0 ≡ rest)
unfolding next_frame
next_frame-taken capacity s frame rest header h u low high small valid =
    let n = length-drop s.cursor s.buffer in
    let total = ap length u in
    let whole = length-append frame rest in
    let size : from_le (take 4 (drop s.cursor s.buffer)) ≡ length frame =
      ap (λ l. from_le (take 4 l)) u ∙ from_le-le 4 (length frame) (omega arith) in
    let body : drop (s.cursor + 4) s.buffer ≡ frame ++ rest =
      drop-drop s.cursor 4 s.buffer ∙ ap (λ l. drop 4 l) u in
    let cut : take (length frame) (drop (s.cursor + 4) s.buffer) ≡ frame =
      ap (λ l. take (length frame) l) body ∙ take-append frame rest in
    let a : ltb (length s.buffer - s.cursor) 4 ≡ false = ground (arith, n, total, whole) in
    let b : ltb (length frame) 122 ≡ false = ground (arith, low) in
    let c : ltb s.max_frame_size (length frame) ≡ false = ground (arith, high) in
    let d : ltb (length s.buffer) (s.cursor + 4 + length frame) ≡ false =
      ground (arith, n, total, whole) in
    let after : FrameScanner = record s {
      cursor = s.cursor + 4 + length frame;
      frames_seen = sat_add64 s.frames_seen 1;
    } in
    let e : next_frame capacity s ≡ (compact capacity after, ok (some frame)) =
      rw (a, size, b, c, d, cut, valid, size, cut) refl in
    let left : unread after ≡ rest =
      drop-drop (s.cursor + 4) (length frame) s.buffer
      ∙ ap (λ l. drop (length frame) l) body
      ∙ drop-append frame rest in
    rw e (refl, (compact-keeps capacity after (omega (arith, n, total, whole))).0 ∙ left)

-- A scanner with the production bound, whose cursor is in its buffer, holds the front of a
-- length-prefixed record, perhaps none of it, and a chunk brings what is missing and anything after
-- it. If the chunk is accepted, the next frame that the scanner yields is the record's, whatever
-- the buffer's capacity, and exactly what came after stays unread. The content hash of the record
-- is of 32 bytes.
pub next_frame-encode_length_prefixed :
    (v : Vendors) (r : Record) (bytes chunk rest : List ℕ) (s s' : FrameScanner)
    (capacity capacity' : ℕ)
    → length r.content_hash ≡ 32
    → encode_length_prefixed v r ≡ ok bytes
    → s.cursor ≤ length s.buffer
    → s.max_frame_size ≡ 16777216
    → unread s ++ chunk ≡ bytes ++ rest
    → feed capacity chunk s ≡ ok s'
    → (frame : List ℕ) × (encode_record v r ≡ ok frame)
      × ((next_frame capacity' s').1 ≡ ok (some frame))
      × (unread (next_frame capacity' s').0 ≡ rest)
unfolding encode_length_prefixed
next_frame-encode_length_prefixed v r bytes chunk rest s s' capacity capacity' hash e h limit u
      fed =
    let (frame, encoded, e₁) =
      and_then-ok (encode_record v r)
        (λ frame.
          if ltb 4294967295 (length frame)
          then err (encode_overflow "stream frame")
          else ok (le 4 (length frame) ++ frame))
        bytes e in
    let (small, e₂) =
      if-ok (ltb 4294967295 (length frame)) (encode_overflow "stream frame") _ bytes e₁ in
    let (header, valid, _, _, low, high) =
      validate_frame_with-encode_record v r frame hash encoded in
    let (kept, h', limit') = feed-ok capacity chunk s s' h fed in
    let p : bytes ≡ le 4 (length frame) ++ frame = sym (cc e₂) in
    let (taken, left) =
      next_frame-taken capacity' s' frame rest header h' (kept ∙ u ∙ ap (λ l. l ++ rest) p) low
        (omega (arith, limit, limit')) (omega arith) valid in
    (frame, encoded, taken, left)
