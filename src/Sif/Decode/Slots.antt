-- ===== src/Sif/Decode/Slots.antt =====
-- What the fields of a record are, as entries and as slots.
use do_logger.Prelude.{
  ℕ, ◌≡◌, refl, ap, subst, ◌∙◌, ◌≢◌, inl, inr, Bool, true, false, Option, none, some, List, [], ◌∷◌,
  arith, ◌==◌, if◌then◌else◌, Bool-cases,
}
use do_logger.Record.Kv.{KvSlot, KvType, get, type_as_u8, type_from_u8}
use do_logger.Record.Fields.{Record, find_slot, kv_get, slots}
use do_logger.Record.Fields.Lookup.{AllValid, kv_get-put_slot, kv_get-payload, untagged}
use do_logger.Record.Tags.{Vendors}
use do_logger.Sif.Frame.{Entry, append_entries, collect_entries, entry_of}
use do_logger.Sif.Decode.{has}
use do_logger.Sif.Decode.Entries.{Accepted, AllAccepted, Fresh, put_all, put_entry}

-- The first of the entries with the tag.
pub find_entry : ℕ → List Entry → Option (ℕ × List ℕ)
find_entry t [] = none
find_entry t (e ∷ es) = if e.tag == t then some (e.ty, e.value) else find_entry t es

unfoldable pub or_before : Option (ℕ × List ℕ) → Option (ℕ × List ℕ) → Option (ℕ × List ℕ)
or_before none o = o
or_before (some x) o = some x

has-cons : (x t : ℕ) (tags : List ℕ) → has t tags ≡ true → has t (x ∷ tags) ≡ true
unfolding has
has-cons x t tags h = ground arith

-- A tag that was read before is not among fresh entries.
find_entry-Fresh :
    (t : ℕ) (tags : List ℕ) (es : List Entry)
    → Fresh tags es
    → has t tags ≡ true
    → find_entry t es ≡ none
unfolding find_entry
find_entry-Fresh t tags [] fr h = refl
find_entry-Fresh t tags (e ∷ es) fr h = elim (Bool-cases (e.tag == t)) [
  | inl p ↦
      let q : e.tag ≡ t = ground arith in
      let bad : has e.tag tags ≡ true = ap (λ x. has x tags) q ∙ h in cc (fr.0, bad)
  | inr p ↦ rw p (find_entry-Fresh t (e.tag ∷ tags) es fr.1 (has-cons e.tag t tags h))
]

type_as_u8-type_from_u8 : (n : ℕ) (t : KvType) → type_from_u8 n ≡ some t → type_as_u8 t ≡ n
unfolding type_from_u8 type_as_u8
type_as_u8-type_from_u8 n t e = ground arith

has_self : (t : ℕ) (tags : List ℕ) → has t (t ∷ tags) ≡ true
unfolding has
has_self t tags = ground arith

module _ (is_utf8 : List ℕ → Bool) where
  kv_get-put_entry :
      (e : Entry) (r : Record)
      → Accepted is_utf8 e
      → AllValid (slots r)
      → AllValid (slots (put_entry e r))
        × ((t : ℕ)
            → t ≢ 0
            → kv_get (put_entry e r) t ≡ (if e.tag == t then some (e.ty, e.value) else kv_get r t))
  unfolding put_entry
  kv_get-put_entry e r w a =
      let p = kv_get-put_slot e.tag w.ty e.value r w.tagged a in
      let q = type_as_u8-type_from_u8 e.ty w.ty w.known in
      rw (w.known, put_entry)
        (p.0, λ t nz. p.1 t nz ∙ ap (λ ty. if e.tag == t then some (ty, e.value) else kv_get r t) q)

  -- Fresh entries that are put into a record are found there, and every other tag has what it had.
  pub kv_get-put_all :
      (es : List Entry) (tags : List ℕ) (r : Record)
      → AllAccepted is_utf8 es
      → Fresh tags es
      → AllValid (slots r)
      → (t : ℕ) → t ≢ 0
      → kv_get (put_all es r) t ≡ or_before (find_entry t es) (kv_get r t)
  unfolding put_all find_entry or_before
  kv_get-put_all [] tags r w fr a t nz = refl
  kv_get-put_all (e ∷ es) tags r w fr a t nz =
      let p = kv_get-put_entry e r w.0 a in
      let ih = kv_get-put_all es (e.tag ∷ tags) (put_entry e r) w.1 fr.1 p.0 t nz in
      elim (Bool-cases (e.tag == t)) [
        | inl g ↦
            let q : e.tag ≡ t = ground arith in
            let fresh =
              find_entry-Fresh t (e.tag ∷ tags) es fr.1
                (subst (λ x. has x (e.tag ∷ tags) ≡ true) q (has_self e.tag tags)) in
            rw (ih, fresh, p.1 t nz, g) refl
        | inr g ↦ rw (ih, p.1 t nz, g) refl
      ]

module _ (v : Vendors) (t : ℕ) (nz : t ≢ 0) where
  payload-append_entries :
      (l : List KvSlot)
      → untagged (elim (find_slot t l) [ none ↦ none | some s ↦ get s ])
        ≡ find_entry t (append_entries v l)
  unfolding untagged find_slot find_entry append_entries get entry_of
  payload-append_entries [] = refl
  payload-append_entries (s ∷ l) = elim (Bool-cases (s.tag == 0)) [
    | inl g ↦
        let h : (s.tag == t) ≡ false = ground arith in
        rw (g, h, append_entries) (payload-append_entries l)
    | inr g ↦ elim (Bool-cases (s.tag == t)) [
      | inl h ↦ rw (g, h, append_entries) (rw (g, get) refl)
      | inr h ↦ rw (g, h, append_entries) (payload-append_entries l)
    ]
  ]

  -- The entries that are collected have what the record has.
  pub kv_get-collect_entries : (r : Record) → kv_get r t ≡ find_entry t (collect_entries v r)
  unfolding collect_entries
  kv_get-collect_entries r = kv_get-payload r t nz ∙ payload-append_entries (slots r)
