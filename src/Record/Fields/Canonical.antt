-- ===== src/Record/Fields/Canonical.antt =====
-- The bytes that a record's content hash is taken of determine everything that they are made from.
use do_logger.Prelude.{
  ℕ, ◌^◌, ◌<◌, ◌≡◌, refl, sym, ap, ◌∙◌, inl, inr, none, some, List, [], ◌∷◌, ◌++◌, append_assoc,
  arith, ◌==◌, Bool-cases, length,
}
use do_logger.Prelude.Bytes.{append_inj, le, le_inj, length-le}
use do_logger.Record.Level.{LogLevel, trace, debug, info, warn, error, fatal, audit, as_u8, from_u8}
use do_logger.Record.Kv.{KvSlot, get, value_slice}
use do_logger.Record.Message.{
  MessagePayloadKind, utf8, binary, explicit_decoded_text, as_bytes, kind,
}
use do_logger.Record.Message
use do_logger.Record.Fields.{Record, hash_input, hash_slots, kind_byte, slots}

-- The fields that are there, in the order of the slots.
unfoldable pub present : List KvSlot → List (ℕ × ℕ × List ℕ)
present [] = []
present (s ∷ rest) = elim (get s) [ none ↦ present rest | some field ↦ field ∷ present rest ]

encode_fields : List (ℕ × ℕ × List ℕ) → List ℕ
encode_fields [] = []
encode_fields ((tag, ty, bytes) ∷ rest) =
    tag ∷ ty ∷ (le 8 (length bytes) ++ (bytes ++ encode_fields rest))

hash_slots-encode_fields : (l : List KvSlot) → hash_slots l ≡ encode_fields (present l)
unfolding hash_slots present encode_fields get
hash_slots-encode_fields [] = refl
hash_slots-encode_fields (s ∷ rest) = elim (Bool-cases (s.tag == 0)) [
  | inl e ↦ rw (e, present) (hash_slots-encode_fields rest)
  | inr e ↦
      rw (e, hash_slots-encode_fields rest, present)
        (rw
          (append_assoc (le 8 (length (value_slice s))) (value_slice s)
            (encode_fields (present rest)))
          refl)
]

abbrev pub Small : List (ℕ × ℕ × List ℕ) → Type 0
Small [] = Unit
Small ((tag, ty, bytes) ∷ rest) = (length bytes < 2 ^ 64) × Small rest

-- A number at the front of equal bytes is the same number.
peel :
    (w m n : ℕ) (us vs : List ℕ)
    → m < 256 ^ w
    → n < 256 ^ w
    → le w m ++ us ≡ le w n ++ vs
    → (m ≡ n) × (us ≡ vs)
peel w m n us vs a b e =
    let (p, q) = append_inj (le w m) (le w n) us vs (length-le w m ∙ sym (length-le w n)) e in
    (le_inj w m n a b p, q)

-- Bytes behind their length are the same bytes.
peel_bytes :
    (xs ys us vs : List ℕ)
    → length xs < 2 ^ 64
    → length ys < 2 ^ 64
    → le 8 (length xs) ++ (xs ++ us) ≡ le 8 (length ys) ++ (ys ++ vs)
    → (xs ≡ ys) × (us ≡ vs)
peel_bytes xs ys us vs a b e =
    let (p, q) = peel 8 (length xs) (length ys) (xs ++ us) (ys ++ vs) a b e in
    append_inj xs ys us vs p q

peel_head : (x y : ℕ) (us vs : List ℕ) → x ∷ us ≡ y ∷ vs → (x ≡ y) × (us ≡ vs)
peel_head x y us vs e = (cc, cc)

encode_fields_inj :
    (xs ys : List (ℕ × ℕ × List ℕ))
    → Small xs
    → Small ys
    → encode_fields xs ≡ encode_fields ys
    → xs ≡ ys
unfolding encode_fields
encode_fields_inj [] [] a b e = refl
encode_fields_inj [] ((t, ty, v) ∷ ys) a b e = cc
encode_fields_inj ((t, ty, v) ∷ xs) [] a b e = cc
encode_fields_inj ((t, ty, v) ∷ xs) ((t', ty', v') ∷ ys) a b e =
    let (p, e₁) = peel_head t t' _ _ e in
    let (q, e₂) = peel_head ty ty' _ _ e₁ in
    let (r, e₃) = peel_bytes v v' (encode_fields xs) (encode_fields ys) a.0 b.0 e₂ in
    cc (encode_fields_inj xs ys a.1 b.1 e₃)

pub from_u8-as_u8 : (l : LogLevel) → from_u8 (as_u8 l) ≡ some l
unfolding from_u8 as_u8
from_u8-as_u8 trace = refl
from_u8-as_u8 debug = refl
from_u8-as_u8 info = refl
from_u8-as_u8 warn = refl
from_u8-as_u8 error = refl
from_u8-as_u8 fatal = refl
from_u8-as_u8 audit = refl

level_inj : (l l' : LogLevel) → as_u8 l ≡ as_u8 l' → l ≡ l'
level_inj l l' e =
    let f : from_u8 (as_u8 l) ≡ from_u8 (as_u8 l') = ap from_u8 e in
    cc (from_u8-as_u8 l, from_u8-as_u8 l')

kind_inj : (k k' : MessagePayloadKind) → kind_byte k ≡ kind_byte k' → k ≡ k'
unfolding kind_byte
kind_inj utf8 utf8 e = refl
kind_inj binary binary e = refl
kind_inj explicit_decoded_text explicit_decoded_text e = refl
kind_inj utf8 binary e = absurd (omega arith)
kind_inj utf8 explicit_decoded_text e = absurd (omega arith)
kind_inj binary utf8 e = absurd (omega arith)
kind_inj binary explicit_decoded_text e = absurd (omega arith)
kind_inj explicit_decoded_text utf8 e = absurd (omega arith)
kind_inj explicit_decoded_text binary e = absurd (omega arith)

-- Every number is within the width of its field.
pub record InRange (r : Record) : Type 0 where
  pub timestamp : r.timestamp < 2 ^ 64
  pub process_id : r.process_id < 2 ^ 32
  pub thread_id : r.thread_id < 2 ^ 32
  pub lsn : r.lsn < 2 ^ 64
  pub flags : r.flags < 2 ^ 16
  pub pool_index : r.pool_index < 2 ^ 32
  pub message : length (Message.as_bytes r.message) < 2 ^ 64
  pub fields : Small (present (slots r))

-- What the hash covers of a record.
pub record SameContent (r r' : Record) : Type 0 where
  pub timestamp : r.timestamp ≡ r'.timestamp
  pub level : r.level ≡ r'.level
  pub process_id : r.process_id ≡ r'.process_id
  pub thread_id : r.thread_id ≡ r'.thread_id
  pub lsn : r.lsn ≡ r'.lsn
  pub flags : r.flags ≡ r'.flags
  pub pool_index : r.pool_index ≡ r'.pool_index
  pub kind : Message.kind r.message ≡ Message.kind r'.message
  pub message : Message.as_bytes r.message ≡ Message.as_bytes r'.message
  pub fields : present (slots r) ≡ present (slots r')

-- Two records whose numbers are in range and whose hash inputs are equal agree in every fixed
-- field, in the kind and the bytes of the message, and in the tags, types and bytes of their
-- dynamic fields, in order: no bytes can be read as another part of the record.
pub hash_input_inj :
    (r r' : Record) → InRange r → InRange r' → hash_input r ≡ hash_input r' → SameContent r r'
unfolding hash_input
hash_input_inj r r' a b e =
    let (timestamp, e₁) = peel 8 r.timestamp r'.timestamp _ _ a.timestamp b.timestamp e in
    let (level, e₂) = peel_head (as_u8 r.level) (as_u8 r'.level) _ _ e₁ in
    let (pid, e₃) = peel 4 r.process_id r'.process_id _ _ a.process_id b.process_id e₂ in
    let (tid, e₄) = peel 4 r.thread_id r'.thread_id _ _ a.thread_id b.thread_id e₃ in
    let (lsn, e₅) = peel 8 r.lsn r'.lsn _ _ a.lsn b.lsn e₄ in
    let (flags, e₆) = peel 2 r.flags r'.flags _ _ a.flags b.flags e₅ in
    let (pool, e₇) = peel 4 r.pool_index r'.pool_index _ _ a.pool_index b.pool_index e₆ in
    let (kind, e₈) =
      peel_head (kind_byte (Message.kind r.message)) (kind_byte (Message.kind r'.message)) _ _ e₇ in
    let (message, e₉) = peel_bytes _ _ _ _ a.message b.message e₈ in
    record {
      timestamp = timestamp;
      level = level_inj _ _ level;
      process_id = pid;
      thread_id = tid;
      lsn = lsn;
      flags = flags;
      pool_index = pool;
      kind = kind_inj _ _ kind;
      message = message;
      fields =
          encode_fields_inj _ _ a.fields b.fields
            (sym (hash_slots-encode_fields (slots r)) ∙ e₉ ∙ hash_slots-encode_fields (slots r'));
    }
