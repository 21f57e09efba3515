-- ===== src/Record/Message.antt =====
-- RecordString of core/src/record/mod.rs, the message payload: a buffer of 96 bytes whose last byte
-- is a sentinel, or shared bytes on the heap. `buffer` is the bytes before the sentinel.
pub mod Payload
mod Tests
use mathlib.Core.Option
use do_logger.Prelude.{
  ℕ, suc, ◌-◌, Bool, true, false, ◌||◌, List, [], ◌∷◌, ◌++◌, leb, ◌==◌, if◌then◌else◌, length, set,
  get_or, take, drop, replicate, Option, none, some, map,
}

pub data MessagePayloadKind : Type 0 where
  utf8 binary explicit_decoded_text : MessagePayloadKind

abbrev pub inline_max : ℕ
inline_max = 94

pub record RecordString : Type 0 where
  pub buffer : List ℕ
  pub sentinel : ℕ
  pub heap : List ℕ

abbrev pub empty : RecordString
empty = record { buffer = replicate 95 0; sentinel = 0; heap = [] }

pub is_inline : RecordString → Bool
is_inline s = s.sentinel == 0x00 || s.sentinel == 0xfe || s.sentinel == 0xfc

unfoldable pub kind : RecordString → MessagePayloadKind
kind s =
    if s.sentinel == 0xfe || s.sentinel == 0xfd
    then binary
    else if s.sentinel == 0xfc || s.sentinel == 0xfb
    then explicit_decoded_text
    else utf8

-- `position(|&b| b == 0)`
pub position_zero : List ℕ → Option ℕ
position_zero [] = none
position_zero (b ∷ bs) = if b == 0 then some 0 else Option.map suc (position_zero bs)

abbrev pub unwrap_or : Option ℕ → ℕ → ℕ
unwrap_or none d = d
unwrap_or (some n) d = n

pub is_binary : MessagePayloadKind → Bool
is_binary binary = true
is_binary utf8 = false
is_binary explicit_decoded_text = false

pub len : RecordString → ℕ
unfolding is_inline kind position_zero is_binary
len s =
    if is_inline s
    then if is_binary (kind s)
      then get_or s.buffer 94 0
      else unwrap_or (position_zero (take inline_max s.buffer)) inline_max
    else length s.heap

pub is_empty : RecordString → Bool
unfolding len
is_empty s = len s == 0

unfoldable pub as_bytes : RecordString → List ℕ
unfolding is_inline len
as_bytes s = if is_inline s then take (len s) s.buffer else s.heap

pub inline_sentinel : MessagePayloadKind → ℕ
inline_sentinel utf8 = 0x00
inline_sentinel binary = 0xfe
inline_sentinel explicit_decoded_text = 0xfc

pub heap_sentinel : MessagePayloadKind → ℕ
heap_sentinel utf8 = 0xff
heap_sentinel binary = 0xfd
heap_sentinel explicit_decoded_text = 0xfb

pub clear : RecordString → RecordString
clear s = empty

-- The bytes in the buffer, then the length byte or a terminator.
pub inline_buffer : List ℕ → List ℕ → MessagePayloadKind → List ℕ
unfolding is_binary
inline_buffer zeros value k =
    let copied = value ++ drop (length value) zeros in
    if is_binary k then set copied 94 (length value) else set copied (length value) 0

unfoldable pub set_with_kind : RecordString → List ℕ → MessagePayloadKind → RecordString
unfolding clear inline_sentinel heap_sentinel inline_buffer
set_with_kind s value k =
    let s' = clear s in
    if leb (length value) inline_max
    then record s' { buffer = inline_buffer s'.buffer value k; sentinel = inline_sentinel k }
    else record s' { heap = value; sentinel = heap_sentinel k }

pub clone : RecordString → RecordString
unfolding set_with_kind as_bytes kind
clone s = set_with_kind empty (as_bytes s) (kind s)
