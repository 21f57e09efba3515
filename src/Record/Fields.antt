-- ===== src/Record/Fields.antt =====
-- The dynamic fields of a record and its identifier: Record of core/src/record/mod.rs.
-- The pointer `kv_ext` is the list of the slots behind it, and null is the empty list.
pub mod Lookup
pub mod Canonical
mod Tests
use mathlib.Core.Option
use do_logger.Prelude.{
  Result, ok, err, ℕ, ◌+◌, Bool, ◌||◌, Option, none, some, List, [], ◌∷◌, ◌++◌, map, ltb, leb, ◌==◌,
  if◌then◌else◌, length, take, drop, replicate,
}
use do_logger.Prelude.Bytes.{le, from_le}
use do_logger.Record.Level.{LogLevel, info, as_u8}
use do_logger.Record.Kv.{KvSlot, KvType, empty, get, hash_slot, is_empty, put}
use do_logger.Record.Kv
use do_logger.Record.Message
use do_logger.Record.Message.{
  RecordString, MessagePayloadKind, utf8, binary, explicit_decoded_text, as_bytes, kind,
}

-- `Record`: the numbers are of the widths that the source gives them, the hash is 32 bytes.
pub record Record : Type 0 where
  pub timestamp : ℕ
  pub level : LogLevel
  pub process_id : ℕ
  pub thread_id : ℕ
  pub lsn : ℕ
  pub flags : ℕ
  pub pool_index : ℕ
  pub message : RecordString
  pub content_hash : List ℕ
  pub kv0 : KvSlot
  pub kv1 : KvSlot
  pub kv_ext : List KvSlot

abbrev pub new : ℕ → Record
new pool_index = record {
  timestamp = 0;
  level = info;
  process_id = 0;
  thread_id = 0;
  lsn = 0;
  flags = 0;
  pool_index = pool_index;
  message = Message.empty;
  content_hash = replicate 32 0;
  kv0 = Kv.empty;
  kv1 = Kv.empty;
  kv_ext = [];
}

unfoldable pub reset : Record → Record
reset r = new r.pool_index

abbrev pub slots : Record → List KvSlot
slots r = r.kv0 ∷ r.kv1 ∷ r.kv_ext

unfoldable pub find_slot : ℕ → List KvSlot → Option KvSlot
find_slot tag [] = none
find_slot tag (s ∷ rest) = if s.tag == tag then some s else find_slot tag rest

unfoldable pub kv_find : Record → ℕ → Option KvSlot
unfolding find_slot
kv_find r tag = if tag == 0 then none else find_slot tag (slots r)

-- The write through the pointer that `kv_find_mut` or `kv_find_empty` returns, if it returns one.
pub write_first : (KvSlot → Bool) → (KvSlot → KvSlot) → List KvSlot → Option (List KvSlot)
write_first p f [] = none
write_first p f (s ∷ rest) =
    if p s then some (f s ∷ rest) else Option.map (λ l. s ∷ l) (write_first p f rest)

unfoldable pub kv_write : (KvSlot → Bool) → (KvSlot → KvSlot) → Record → Option Record
unfolding write_first
kv_write p f r =
    if p r.kv0
    then some (record r { kv0 = f r.kv0 })
    else if p r.kv1
    then some (record r { kv1 = f r.kv1 })
    else Option.map (λ l. record r { kv_ext = l }) (write_first p f r.kv_ext)

-- `let _ = self.put(...)`
pub put_quietly : ℕ → KvType → List ℕ → KvSlot → KvSlot
unfolding put
put_quietly tag ty bytes s = elim (put s tag ty bytes) [ ok s' ↦ s' | err e ↦ s ]

abbrev pub kv_tag_max : ℕ
kv_tag_max = 192

-- The first of the writes that there is.
unfoldable pub first_of : Option Record → Option Record → Record → Record
first_of (some r) o last = r
first_of none (some r) last = r
first_of none none last = last

-- The slot of the tag, or the first that is empty, or a new one is written.
unfoldable pub put_slot : ℕ → KvType → List ℕ → Record → Record
unfolding kv_write put_quietly is_empty first_of
put_slot tag ty bytes r =
    first_of (kv_write (λ s. s.tag == tag) (put_quietly tag ty bytes) r)
      (kv_write is_empty (put_quietly tag ty bytes) r)
      (record r { kv_ext = r.kv_ext ++ put_quietly tag ty bytes Kv.empty ∷ [] })

-- `kv_put_string`, `kv_put_binary`, `kv_put_u64` and `kv_put_i64`, by type and bytes.
unfoldable pub kv_put : ℕ → KvType → List ℕ → Record → Record
unfolding put_slot
kv_put tag ty bytes r = if tag == 0 || ltb kv_tag_max tag then r else put_slot tag ty bytes r

unfoldable pub set_id : ℕ → ℕ → Record → Record
set_id hi lo = kv_put 1 KvType.binary (le 8 hi ++ le 8 lo)

-- The payload of a tag, by its type byte and bytes.
unfoldable pub kv_get : Record → ℕ → Option (ℕ × List ℕ)
unfolding kv_find get
kv_get r tag = elim (kv_find r tag) [
  | none ↦ none
  | some s ↦ elim (get s) [ none ↦ none | some (t, ty, bytes) ↦ some (ty, bytes) ]
]

-- `id_hi` and `id_lo` read 8 bytes at 0 and at 8.
unfoldable pub id_part : ℕ → Record → ℕ
id_part offset r = elim (kv_get r 1) [
  | none ↦ 0
  | some (ty, bytes) ↦
      if leb (offset + 8) (length bytes) then from_le (take 8 (drop offset bytes)) else 0
]

unfoldable pub id_hi : Record → ℕ
id_hi = id_part 0

unfoldable pub id_lo : Record → ℕ
id_lo = id_part 8

-- The byte that stands for the kind of the message in the hashed bytes.
pub kind_byte : MessagePayloadKind → ℕ
kind_byte utf8 = 0
kind_byte binary = 1
kind_byte explicit_decoded_text = 2

pub hash_slots : List KvSlot → List ℕ
unfolding hash_slot
hash_slots [] = []
hash_slots (s ∷ rest) = hash_slot s [] ++ hash_slots rest

-- The bytes that `compute_content_hash_from` feeds to SHA-256, in its order.
unfoldable pub hash_input : Record → List ℕ
unfolding hash_slots kind_byte Message.kind Message.as_bytes as_u8
hash_input r =
    le 8 r.timestamp
    ++ (as_u8 r.level
        ∷ (le 4 r.process_id
            ++ (le 4 r.thread_id
                ++ (le 8 r.lsn
                    ++ (le 2 r.flags
                        ++ (le 4 r.pool_index
                            ++ (kind_byte (Message.kind r.message)
                                ∷ (le 8 (length (Message.as_bytes r.message))
                                    ++ (Message.as_bytes r.message ++ hash_slots (slots r))))))))))

-- The digest is a parameter.
unfoldable pub compute_content_hash : (List ℕ → List ℕ) → Record → Record
unfolding hash_input
compute_content_hash sha256 r = record r { content_hash = sha256 (hash_input r) }
