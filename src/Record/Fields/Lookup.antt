-- ===== src/Record/Fields/Lookup.antt =====
-- A field that is put is found again, and no other field changes.
use mathlib.Core.Option
use do_logger.Prelude.{
  ok, ℕ, ◌≡◌, refl, sym, ap, subst, ◌∙◌, ◌≢◌, ◌⊎◌, false, Option, none, some, List, [], ◌∷◌, ◌++◌,
  arith, ◌==◌, if◌then◌else◌, inl, inr, Bool, Bool-cases, ◌≤◌, ◌||◌, ltb, ◌^◌, ◌<◌, Option-cases,
  ◌+◌, true, leb, length, take, drop,
}
use do_logger.Record.Kv.{
  KvSlot, KvType, drop_overflow, get, put, stored, type_as_u8, empty, is_empty, binary,
}
use do_logger.Record.Kv.Canonical.{
  IsValid, drop_overflow-IsValid, stored-IsValid, stored-get, stored-parts,
}
use do_logger.Prelude.Bytes.{from_le, from_le-le, le}
use do_logger.Record.Fields.{
  find_slot, put_quietly, Record, kv_write, slots, write_first, first_of, kv_put, id_hi, id_lo,
  id_part, kv_find, kv_get, set_id, put_slot, new,
}

abbrev pub AllValid : List KvSlot → Type 0
AllValid [] = Unit
AllValid (s ∷ rest) = IsValid s × AllValid rest

AllValid-append : (l : List KvSlot) (s : KvSlot) → AllValid l → IsValid s → AllValid (l ++ s ∷ [])
AllValid-append [] s a v = (v, tt)
AllValid-append (x ∷ l) s a v = (a.0, AllValid-append l s a.1 v)

pub new-AllValid : (pool_index : ℕ) → AllValid (slots (new pool_index))
new-AllValid n =
    let v : IsValid empty = record { area = refl; inline = λ ne. omega arith } in (v, (v, tt))

module _ (tag : ℕ) (ty : KvType) (bytes : List ℕ) (ne : tag ≢ 0) where
  abbrev f : KvSlot → KvSlot
  f = put_quietly tag ty bytes

  put-eq :
      (s : KvSlot) → put s tag ty bytes ≡ ok (stored (drop_overflow s) tag (type_as_u8 ty) bytes)
  unfolding put
  put-eq s = let e : (tag == 0) ≡ false = ground arith in rw e refl

  f-eq : (s : KvSlot) → f s ≡ stored (drop_overflow s) tag (type_as_u8 ty) bytes
  unfolding put_quietly
  f-eq s = rw (put-eq s, put_quietly) refl

  f-tag : (s : KvSlot) → (f s).tag ≡ tag
  f-tag s = ap (λ s. s.tag) (f-eq s) ∙ (stored-parts (drop_overflow s) tag (type_as_u8 ty) bytes).0

  f-IsValid : (s : KvSlot) → IsValid s → IsValid (f s)
  f-IsValid s v =
      subst IsValid (sym (f-eq s))
        (stored-IsValid (drop_overflow s) tag (type_as_u8 ty) bytes (drop_overflow-IsValid s v))

  f-get : (s : KvSlot) → get (f s) ≡ some (tag, type_as_u8 ty, bytes)
  f-get s = ap get (f-eq s) ∙ stored-get (drop_overflow s) tag (type_as_u8 ty) bytes ne

  abbrev payload : ℕ → List KvSlot → Option (ℕ × ℕ × List ℕ)
  payload t l = elim (find_slot t l) [ none ↦ none | some s ↦ get s ]

  -- What a list of slots must become.
  record Put (l l' : List KvSlot) : Type 0 where
    finds :
        (t : ℕ)
        → t ≢ 0
        → payload t l' ≡ (if tag == t then some (tag, type_as_u8 ty, bytes) else payload t l)
    valid : AllValid l'

  Put-head :
      (s : KvSlot) (rest : List KvSlot)
      → (s.tag ≡ tag) ⊎ (s.tag ≡ 0)
      → AllValid (s ∷ rest)
      → Put (s ∷ rest) (f s ∷ rest)
  unfolding find_slot
  Put-head s rest e a = record {
    finds = λ t nz. ground (arith, f-tag s, f-get s);
    valid = (f-IsValid s a.0, a.1);
  }

  Put-tail :
      (s : KvSlot) (l l' : List KvSlot)
      → s.tag ≢ tag
      → AllValid (s ∷ l)
      → Put l l'
      → Put (s ∷ l) (s ∷ l')
  unfolding find_slot
  Put-tail s l l' e a p = record {
    finds = λ t nz. ground (arith, p.finds t);
    valid = (a.0, p.valid);
  }

  -- No slot has the tag.
  abbrev Others : List KvSlot → Type 0
  Others [] = Unit
  Others (s ∷ rest) = (s.tag ≢ tag) × Others rest

  abbrev Wrote : List KvSlot → Option (List KvSlot) → Type 0
  Wrote l none = Others l
  Wrote l (some l') = Put l l'

  Wrote-tail :
      (s : KvSlot) (l : List KvSlot) (o : Option (List KvSlot))
      → s.tag ≢ tag
      → AllValid (s ∷ l)
      → Wrote l o
      → Wrote (s ∷ l) (Option.map (λ l. s ∷ l) o)
  Wrote-tail s l none e a w = (e, w)
  Wrote-tail s l (some l') e a w = Put-tail s l l' e a w

  write_tag : (l : List KvSlot) → AllValid l → Wrote l (write_first (λ s. s.tag == tag) f l)
  unfolding write_first
  write_tag [] a = tt
  write_tag (s ∷ l) a = elim (Bool-cases (s.tag == tag)) [
    | inl e ↦ rw e (Put-head s l (inl (ground arith)) a)
    | inr e ↦ rw e (Wrote-tail s l _ (ground arith) a (write_tag l a.1))
  ]

  write_empty : (l : List KvSlot) → AllValid l → Others l → Wrote l (write_first is_empty f l)
  unfolding write_first is_empty
  write_empty [] a h = tt
  write_empty (s ∷ l) a h = elim (Bool-cases (s.tag == 0)) [
    | inl e ↦ rw e (Put-head s l (inr (ground arith)) a)
    | inr e ↦ rw e (Wrote-tail s l _ h.0 a (write_empty l a.1 h.1))
  ]

  write_new : (l : List KvSlot) → AllValid l → Others l → Put l (l ++ f empty ∷ [])
  unfolding find_slot
  write_new [] a h = record {
    finds = λ t nz. ground (arith, f-tag empty, f-get empty);
    valid = (f-IsValid empty (record { area = refl; inline = λ ne. omega arith }), tt);
  }
  write_new (s ∷ l) a h = Put-tail s l _ h.0 a (write_new l a.1 h.1)

  map-slots :
      (r : Record) (o : Option (List KvSlot))
      → Option.map (λ l. r.kv0 ∷ l) (Option.map (λ l. r.kv1 ∷ l) o)
        ≡ Option.map slots (Option.map (λ l. record r { kv_ext = l }) o)
  map-slots r none = refl
  map-slots r (some l) = refl

  kv_write-slots :
      (p : KvSlot → Bool) (r : Record)
      → write_first p f (slots r) ≡ Option.map slots (kv_write p f r)
  unfolding write_first kv_write
  kv_write-slots p r = elim (Bool-cases (p r.kv0)) [
    | inl e ↦ rw e refl
    | inr e ↦ elim (Bool-cases (p r.kv1)) [
      | inl e' ↦ rw (e, e') refl
      | inr e' ↦ rw (e, e') (map-slots r (write_first p f r.kv_ext))
    ]
  ]

  first_of-Put :
      (r : Record) (o o' : Option Record)
      → Wrote (slots r) (Option.map slots o)
      → (Others (slots r) → Wrote (slots r) (Option.map slots o'))
      → (Others (slots r) → Put (slots r) (slots (record r { kv_ext = r.kv_ext ++ f empty ∷ [] })))
      → Put (slots r) (slots (first_of o o' (record r { kv_ext = r.kv_ext ++ f empty ∷ [] })))
  unfolding first_of
  first_of-Put r (some r') o' a b c = a
  first_of-Put r none (some r') a b c = b a
  first_of-Put r none none a b c = c a

  put_slot-Put : (r : Record) → AllValid (slots r) → Put (slots r) (slots (put_slot tag ty bytes r))
  unfolding put_slot
  put_slot-Put r a =
      first_of-Put r _ _
        (subst (Wrote (slots r)) (kv_write-slots (λ s. s.tag == tag) r) (write_tag (slots r) a))
        (λ h. subst (Wrote (slots r)) (kv_write-slots is_empty r) (write_empty (slots r) a h))
        (write_new (slots r) a)

unfoldable pub untagged : Option (ℕ × ℕ × List ℕ) → Option (ℕ × List ℕ)
untagged none = none
untagged (some (t, ty, bytes)) = some (ty, bytes)

untagged-payload :
    (o : Option KvSlot)
    → (elim o [
      | none ↦ none
      | some s ↦ elim (get s) [ none ↦ none | some (t, ty, bytes) ↦ some (ty, bytes) ]
    ])
      ≡ untagged (elim o [ none ↦ none | some s ↦ get s ])
unfolding untagged
untagged-payload none = refl
untagged-payload (some s) = elim (Option-cases (get s)) [
  | inl e ↦ rw e refl
  | inr (x, e) ↦ rw e refl
]

pub kv_get-payload :
    (r : Record) (t : ℕ)
    → t ≢ 0
    → kv_get r t ≡ untagged (elim (find_slot t (slots r)) [ none ↦ none | some s ↦ get s ])
unfolding kv_get kv_find
kv_get-payload r t nz =
    let g : (t == 0) ≡ false = ground arith in
    rw (g, kv_get, kv_find) (untagged-payload (find_slot t (slots r)))

untagged-if :
    (tag t ty : ℕ) (bytes : List ℕ) (r : Record)
    → t ≢ 0
    → untagged (
        if tag == t
        then some (tag, ty, bytes)
        else elim (find_slot t (slots r)) [ none ↦ none | some s ↦ get s ])
      ≡ (if tag == t then some (ty, bytes) else kv_get r t)
unfolding untagged
untagged-if tag t ty bytes r nz = elim (Bool-cases (tag == t)) [
  | inl e ↦ rw e refl
  | inr e ↦ rw e (sym (kv_get-payload r t nz))
]

pub kv_get-put_slot :
    (tag : ℕ) (ty : KvType) (bytes : List ℕ) (r : Record)
    → tag ≢ 0
    → AllValid (slots r)
    → AllValid (slots (put_slot tag ty bytes r))
      × ((t : ℕ)
          → t ≢ 0
          → kv_get (put_slot tag ty bytes r) t
            ≡ (if tag == t then some (type_as_u8 ty, bytes) else kv_get r t))
kv_get-put_slot tag ty bytes r ne a =
    let p = put_slot-Put tag ty bytes ne r a in
    (
      p.valid,
      λ t nz.
          kv_get-payload (put_slot tag ty bytes r) t nz
          ∙ ap untagged (p.finds t nz)
          ∙ untagged-if tag t (type_as_u8 ty) bytes r nz,
    )

-- On a record whose slots are valid, a put under an admissible tag keeps the slots valid; the tag
-- then has the type and the bytes that were put, whichever slot took them, and every other tag has
-- what it had.
pub kv_get-kv_put :
    (tag : ℕ) (ty : KvType) (bytes : List ℕ) (r : Record)
    → tag ≢ 0
    → tag ≤ 192
    → AllValid (slots r)
    → AllValid (slots (kv_put tag ty bytes r))
      × ((t : ℕ)
          → t ≢ 0
          → kv_get (kv_put tag ty bytes r) t
            ≡ (if tag == t then some (type_as_u8 ty, bytes) else kv_get r t))
unfolding kv_put
kv_get-kv_put tag ty bytes r ne le a =
    let g : (tag == 0 || ltb 192 tag) ≡ false = ground arith in
    rw g (kv_get-put_slot tag ty bytes r ne a)

pub id_part-of :
    (offset ty : ℕ) (bytes : List ℕ) (r : Record)
    → kv_get r 1 ≡ some (ty, bytes)
    → offset + 8 ≤ length bytes
    → id_part offset r ≡ from_le (take 8 (drop offset bytes))
unfolding id_part
id_part-of offset ty bytes r e h =
    let g : leb (offset + 8) (length bytes) ≡ true = ground arith in rw (e, id_part) (rw g refl)

pub kv_get-set_id :
    (hi lo : ℕ) (r : Record)
    → AllValid (slots r)
    → kv_get (set_id hi lo r) 1 ≡ some (6, le 8 hi ++ le 8 lo)
unfolding set_id type_as_u8
kv_get-set_id hi lo r a =
    (kv_get-kv_put 1 binary (le 8 hi ++ le 8 lo) r (λ e. cc) (omega arith) a).1 1 (λ e. cc)

kv_get-new : (n t : ℕ) → t ≢ 0 → kv_get (new n) t ≡ none
unfolding find_slot untagged
kv_get-new n t nz =
    let h : (0 == t) ≡ false = ground arith in kv_get-payload (new n) t nz ∙ rw h refl

pub kv_get-set_id-new :
    (hi lo n : ℕ)
    → AllValid (slots (set_id hi lo (new n)))
      × ((t : ℕ)
          → t ≢ 0
          → kv_get (set_id hi lo (new n)) t
            ≡ (if 1 == t then some (6, le 8 hi ++ le 8 lo) else none))
unfolding set_id type_as_u8
kv_get-set_id-new hi lo n =
    let bytes = le 8 hi ++ le 8 lo in
    let p = kv_get-kv_put 1 binary bytes (new n) (λ e. cc) (omega arith) (new-AllValid n) in
    (p.0, λ t nz. p.1 t nz ∙ ap (λ o. if 1 == t then some (6, bytes) else o) (kv_get-new n t nz))

pub id_part-kv_get :
    (offset : ℕ) (r r' : Record) → kv_get r 1 ≡ kv_get r' 1 → id_part offset r ≡ id_part offset r'
unfolding id_part
id_part-kv_get offset r r' e = rw (e, id_part) refl

pub id_part-absent : (offset : ℕ) (r : Record) → kv_get r 1 ≡ none → id_part offset r ≡ 0
unfolding id_part
id_part-absent offset r e = rw (e, id_part) refl

-- On a record whose slots are valid, `id_hi` and `id_lo` give back the 64-bit halves of the
-- identifier that `set_id` has set.
pub id-set_id :
    (hi lo : ℕ) (r : Record)
    → hi < 2 ^ 64
    → lo < 2 ^ 64
    → AllValid (slots r)
    → (id_hi (set_id hi lo r) ≡ hi) × (id_lo (set_id hi lo r) ≡ lo)
unfolding id_hi id_lo
id-set_id hi lo r h l a =
    let e = kv_get-set_id hi lo r a in
    (
      id_part-of 0 6 _ (set_id hi lo r) e (omega arith) ∙ from_le-le 8 hi h,
      id_part-of 8 6 _ (set_id hi lo r) e (omega arith) ∙ from_le-le 8 lo l,
    )
