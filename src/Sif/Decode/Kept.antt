-- ===== src/Sif/Decode/Kept.antt =====
-- Writing a slot changes nothing of a record but its slots.
use mathlib.Core.Option
use do_logger.Prelude.{
  ℕ, ◌≡◌, refl, ◌∙◌, inl, inr, Bool, Option, none, some, List, [], ◌∷◌, Bool-cases, Option-cases,
  ◌++◌, ◌==◌,
}
use do_logger.Record.Kv.{KvSlot, KvType, type_from_u8, empty, is_empty, binary}
use do_logger.Record.Kv
use do_logger.Prelude.Bytes.{le}
use do_logger.Record.Fields.{
  set_id, kv_put, Record, put_slot, kv_write, first_of, write_first, put_quietly,
}
use do_logger.Sif.Frame.{Entry}
use do_logger.Sif.Decode.Entries.{put_all, put_entry}

-- The record without its slots.
abbrev pub bare : Record → Record
bare r = record r { kv0 = Kv.empty; kv1 = Kv.empty; kv_ext = [] }

abbrev Kept : Record → Option Record → Type 0
Kept r none = Unit
Kept r (some r') = bare r' ≡ bare r

map-Kept :
    (r : Record) (o : Option (List KvSlot)) → Kept r (Option.map (λ l. record r { kv_ext = l }) o)
map-Kept r none = tt
map-Kept r (some l) = refl

kv_write-Kept : (p : KvSlot → Bool) (f : KvSlot → KvSlot) (r : Record) → Kept r (kv_write p f r)
unfolding kv_write
kv_write-Kept p f r = elim (Bool-cases (p r.kv0)) [
  | inl e ↦ rw e refl
  | inr e ↦ elim (Bool-cases (p r.kv1)) [
    | inl e' ↦ rw (e, e') refl
    | inr e' ↦ rw (e, e') (map-Kept r (write_first p f r.kv_ext))
  ]
]

first_of-Kept :
    (r last : Record) (o o' : Option Record)
    → Kept r o
    → Kept r o'
    → bare last ≡ bare r
    → bare (first_of o o' last) ≡ bare r
unfolding first_of
first_of-Kept r last (some r') o' a b c = a
first_of-Kept r last none (some r') a b c = b
first_of-Kept r last none none a b c = c

bare-put_slot :
    (tag : ℕ) (ty : KvType) (bytes : List ℕ) (r : Record) → bare (put_slot tag ty bytes r) ≡ bare r
unfolding put_slot
bare-put_slot tag ty bytes r =
    let by_tag = λ (s : KvSlot). s.tag == tag in
    let write = put_quietly tag ty bytes in
    let last = record r { kv_ext = r.kv_ext ++ write Kv.empty ∷ [] } in
    first_of-Kept r last (kv_write by_tag write r) (kv_write Kv.is_empty write r)
      (kv_write-Kept by_tag write r) (kv_write-Kept Kv.is_empty write r) refl

bare-put_entry : (e : Entry) (r : Record) → bare (put_entry e r) ≡ bare r
unfolding put_entry
bare-put_entry e r = elim (Option-cases (type_from_u8 e.ty)) [
  | inl p ↦ rw (p, put_entry) refl
  | inr p ↦ rw (p.1, put_entry) (bare-put_slot e.tag p.0 e.value r)
]

pub bare-put_all : (es : List Entry) (r : Record) → bare (put_all es r) ≡ bare r
unfolding put_all
bare-put_all [] r = refl
bare-put_all (e ∷ es) r = bare-put_all es (put_entry e r) ∙ bare-put_entry e r

pub bare-set_id : (hi lo : ℕ) (r : Record) → bare (set_id hi lo r) ≡ bare r
unfolding set_id kv_put
bare-set_id hi lo r = bare-put_slot 1 KvType.binary (le 8 hi ++ le 8 lo) r
