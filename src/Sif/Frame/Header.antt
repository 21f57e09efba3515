-- ===== src/Sif/Frame/Header.antt =====
-- The header that `encode_record` writes, and what the checks of a frame read of it.
use do_logger.Prelude.{
  ok, ℕ, ◌+◌, ◌^◌, ◌≤◌, ◌<◌, ◌≡◌, refl, Bool, true, false, List, ◌++◌, arith, ltb, ◌==◌, length,
  take, drop, sym, ap, subst, ◌∙◌, length-append,
}
use do_logger.Prelude.Bytes.{le, from_le-le}
use do_logger.Record.Message.{MessagePayloadKind, utf8, binary, explicit_decoded_text}
use do_logger.Record.Tags.{name_eq}
use do_logger.Record.Fields.{Record}
use do_logger.Sif.Frame.{
  SifFrameHeader, default_options, flags_of, header_bytes, kinds_conflict, read, set_total,
  sif_fixed_len, sif_header_len, sif_magic, validate_frame_with, finish, fixed_bytes,
}

read-at :
    (w offset : ℕ) (bytes : List ℕ) (n : ℕ)
    → offset + w ≤ length bytes
    → take w (drop offset bytes) ≡ le w n
    → n < 256 ^ w
    → read w bytes offset ≡ ok n
unfolding read
read-at w offset bytes n h e small = rw (e, from_le-le w n small) (ground arith)

-- What the checks look at, in a frame that passes them.
pub record Header (frame : List ℕ) (flags count : ℕ) : Type 0 where
  pub long : 122 ≤ length frame
  pub short : length frame ≤ 16777216
  pub few : count ≤ 1024
  pub magic : name_eq (take 4 frame) sif_magic ≡ true
  pub header_len : read 2 frame 4 ≡ ok 32
  pub at_flags : read 2 frame 6 ≡ ok flags
  pub kinds : kinds_conflict flags ≡ false
  pub at_total : read 4 frame 8 ≡ ok (length frame)
  pub at_count : read 4 frame 12 ≡ ok count
  pub at_fixed : read 4 frame 16 ≡ ok 90

unfoldable pub header_of : ℕ → ℕ → ℕ → SifFrameHeader
header_of flags total count = record {
  flags = flags;
  total_length = total;
  field_count = count;
  fixed_length = 90;
}

pub validate_frame_with-Header :
    (frame : List ℕ) (flags count : ℕ)
    → Header frame flags count
    → validate_frame_with frame default_options ≡ ok (header_of flags (length frame) count)
unfolding validate_frame_with header_of
validate_frame_with-Header frame flags count h =
    let a : ltb 16777216 (length frame) ≡ false = ground (arith, h.short) in
    let b : ltb (length frame) 32 ≡ false = ground (arith, h.long) in
    let c : ltb (length frame) 122 ≡ false = ground (arith, h.long) in
    let d : ltb 1024 count ≡ false = ground (arith, h.few) in
    let e : (length frame == length frame) ≡ true = ground arith in
    rw
      (
        a, b, h.magic, h.header_len, h.at_flags, h.kinds, h.at_total, e, a, h.at_count, d,
        h.at_fixed, c,
      )
      refl

-- The header with its total.
stamped : ℕ → ℕ → ℕ → List ℕ
stamped flags total count =
    sif_magic
    ++ (le 2 sif_header_len
        ++ (le 2 flags
            ++ (le 4 total
                ++ (le 4 count ++ (le 4 sif_fixed_len ++ (le 4 0 ++ (le 4 0 ++ le 4 0)))))))

set_total-header_bytes :
    (flags count : ℕ) (rest : List ℕ)
    → set_total (header_bytes flags count ++ rest)
      ≡ stamped flags (length (header_bytes flags count ++ rest)) count ++ rest
unfolding set_total header_bytes stamped
set_total-header_bytes flags count rest = refl

length-header_bytes :
    (flags count : ℕ) (rest : List ℕ) → length (header_bytes flags count ++ rest) ≡ 32 + length rest
unfolding header_bytes
length-header_bytes flags count rest = omega arith

length-stamped :
    (flags total count : ℕ) (rest : List ℕ)
    → length (stamped flags total count ++ rest) ≡ 32 + length rest
unfolding stamped
length-stamped flags total count rest = omega arith

pub flags_of-small :
    (a h : Bool) (k : MessagePayloadKind)
    → (flags_of a h k < 65536) × (kinds_conflict (flags_of a h k) ≡ false)
unfolding flags_of kinds_conflict
flags_of-small true true utf8 = (omega arith, refl)
flags_of-small true false utf8 = (omega arith, refl)
flags_of-small false true utf8 = (omega arith, refl)
flags_of-small false false utf8 = (omega arith, refl)
flags_of-small true true binary = (omega arith, refl)
flags_of-small true false binary = (omega arith, refl)
flags_of-small false true binary = (omega arith, refl)
flags_of-small false false binary = (omega arith, refl)
flags_of-small true true explicit_decoded_text = (omega arith, refl)
flags_of-small true false explicit_decoded_text = (omega arith, refl)
flags_of-small false true explicit_decoded_text = (omega arith, refl)
flags_of-small false false explicit_decoded_text = (omega arith, refl)

stamped-Header :
    (flags count : ℕ) (rest : List ℕ)
    → flags < 65536
    → kinds_conflict flags ≡ false
    → count ≤ 1024
    → 90 ≤ length rest
    → 32 + length rest ≤ 16777216
    → Header (stamped flags (32 + length rest) count ++ rest) flags count
unfolding stamped name_eq
stamped-Header flags count rest f k c l s =
    let n = length-stamped flags (32 + length rest) count rest in
    record {
      long = omega arith;
      short = omega arith;
      few = c;
      magic = refl;
      header_len = read-at 2 4 _ 32 (omega arith) refl (omega arith);
      at_flags = read-at 2 6 _ flags (omega arith) refl (omega arith);
      kinds = k;
      at_total = rw n (read-at 4 8 _ (32 + length rest) (omega arith) refl (omega arith));
      at_count = read-at 4 12 _ count (omega arith) refl (omega arith);
      at_fixed = read-at 4 16 _ 90 (omega arith) refl (omega arith);
    }

finish-ok :
    (frame out : List ℕ) → finish frame ≡ ok out → (out ≡ set_total frame) × (length out ≤ 16777216)
unfolding finish
finish-ok frame out e = (ground arith, ground arith)

pub length-fixed_bytes :
    (r : Record) (message : List ℕ)
    → length r.content_hash ≡ 32
    → length (fixed_bytes r message) ≡ 90
unfolding fixed_bytes
length-fixed_bytes r message h = omega (arith, length-append r.content_hash (le 4 (length message)))

finished-stamped :
    (flags count : ℕ) (rest out : List ℕ)
    → finish (header_bytes flags count ++ rest) ≡ ok out
    → out ≡ stamped flags (length (header_bytes flags count ++ rest)) count ++ rest
finished-stamped flags count rest out e =
    (finish-ok _ out e).0 ∙ set_total-header_bytes flags count rest

-- Behind its header the frame is as it was.
pub finished-tail :
    (flags count : ℕ) (rest out : List ℕ)
    → finish (header_bytes flags count ++ rest) ≡ ok out
    → drop 32 out ≡ rest
unfolding stamped
finished-tail flags count rest out e = ap (drop 32) (finished-stamped flags count rest out e)

-- A frame that is made from a header, fixed bytes and any others.
pub finished-Header :
    (flags count : ℕ) (rest out : List ℕ)
    → flags < 65536
    → kinds_conflict flags ≡ false
    → count ≤ 1024
    → 90 ≤ length rest
    → finish (header_bytes flags count ++ rest) ≡ ok out
    → Header out flags count
finished-Header flags count rest out f k c l e =
    let q = (finish-ok _ out e).1 in
    let stamp = finished-stamped flags count rest out e in
    let n = length-header_bytes flags count rest in
    subst (λ x. Header x flags count) (sym (stamp ∙ ap (λ t. stamped flags t count ++ rest) n))
      (stamped-Header flags count rest f k c l (
        omega (
          arith,
          ap length stamp,
          length-stamped flags (length (header_bytes flags count ++ rest)) count rest,
        )))
