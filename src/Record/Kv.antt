-- ===== src/Record/Kv.antt =====
-- core/src/record/kv.rs: the 32-byte key-value slot and its canonical forms. The value area of 29
-- bytes is `value`; the buffer that an overflow descriptor owns is `boxed`, and the pointer in the
-- descriptor is not represented. `len` is the byte of the slot.
pub mod Canonical
mod Tests
use do_logger.Prelude.{
  Result, ok, err, ℕ, Bool, Option, none, some, List, [], ◌∷◌, ◌++◌, ltb, leb, ◌==◌, if◌then◌else◌,
  length, take, drop, replicate,
}
use do_logger.Prelude.Bytes.{le}

pub data KvType : Type 0 where
  int64 u_int64 double bool string binary null : KvType

unfoldable pub type_from_u8 : ℕ → Option KvType
type_from_u8 v =
    if v == 1
    then some int64
    else if v == 2
    then some u_int64
    else if v == 3
    then some double
    else if v == 4
    then some bool
    else if v == 5
    then some string
    else if v == 6
    then some binary
    else if v == 7
    then some null
    else none

unfoldable pub type_as_u8 : KvType → ℕ
type_as_u8 int64 = 1
type_as_u8 u_int64 = 2
type_as_u8 double = 3
type_as_u8 bool = 4
type_as_u8 string = 5
type_as_u8 binary = 6
type_as_u8 null = 7

pub data KvPutError : Type 0 where
  tag_reserved : KvPutError

abbrev pub kv_value_capacity : ℕ
kv_value_capacity = 29

abbrev pub kv_len_overflow : ℕ
kv_len_overflow = 255

pub record KvSlot : Type 0 where
  pub tag : ℕ
  pub ty : ℕ
  pub len : ℕ
  pub value : List ℕ
  pub boxed : List ℕ

abbrev pub empty : KvSlot
empty = record { tag = 0; ty = 0; len = 0; value = replicate 29 0; boxed = [] }

unfoldable pub is_empty : KvSlot → Bool
is_empty s = s.tag == 0

-- The buffer is freed, and the marker cleared.
pub drop_overflow : KvSlot → KvSlot
drop_overflow s = if s.len == kv_len_overflow then record s { len = 0; boxed = [] } else s

-- The bytes are copied into the value area, or into a buffer of their own.
pub stored : KvSlot → ℕ → ℕ → List ℕ → KvSlot
stored s tag ty bytes =
    if leb (length bytes) kv_value_capacity
    then record {
      tag = tag;
      ty = ty;
      len = length bytes;
      value = bytes ++ drop (length bytes) s.value;
      boxed = s.boxed;
    }
    else record { tag = tag; ty = ty; len = kv_len_overflow; value = s.value; boxed = bytes }

unfoldable pub put : KvSlot → ℕ → KvType → List ℕ → Result KvPutError KvSlot
unfolding type_as_u8 drop_overflow stored
put s tag ty bytes =
    if tag == 0 then err tag_reserved else ok (stored (drop_overflow s) tag (type_as_u8 ty) bytes)

unfoldable pub value_slice : KvSlot → List ℕ
value_slice s = if s.len == kv_len_overflow then s.boxed else take s.len s.value

-- The tag, the type byte and the payload.
unfoldable pub get : KvSlot → Option (ℕ × ℕ × List ℕ)
unfolding is_empty value_slice
get s = if is_empty s then none else some (s.tag, s.ty, value_slice s)

pub wire_put : KvSlot → ℕ → ℕ → List ℕ → Result KvPutError KvSlot
unfolding type_from_u8 put
wire_put s tag ty bytes = elim (type_from_u8 ty) [
  | none ↦ err tag_reserved
  | some t ↦ put s tag t bytes
]

pub clear : KvSlot → KvSlot
clear s = empty

-- What a slot adds to the bytes that a record is serialized to.
pub serialize_into : KvSlot → List ℕ → List ℕ
unfolding is_empty value_slice
serialize_into s out =
    if is_empty s
    then out
    else let bytes = value_slice s in
      out
      ++ (s.tag
          ∷ s.ty
          ∷ (if ltb (length bytes) 255
              then length bytes ∷ bytes
              else kv_len_overflow ∷ (le 8 (length bytes) ++ bytes)))

-- What a slot adds to the bytes that a record's hash is taken of.
unfoldable pub hash_slot : KvSlot → List ℕ → List ℕ
unfolding is_empty value_slice
hash_slot s buf =
    if is_empty s
    then buf
    else buf ++ (s.tag ∷ s.ty ∷ (le 8 (length (value_slice s)) ++ value_slice s))
