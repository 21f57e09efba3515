-- ===== src/Sif/Names/Wire.antt =====
-- Which field names a frame can carry: what `field_name_for_tag` writes against what
-- `validate_name` accepts.
use do_logger.Prelude.{
  ℕ, ◌≡◌, refl, Option, none, some, List, [], ◌∷◌, ◌++◌, if◌then◌else◌, zero, suc, ◌<◌, sym, inl,
  inr, Bool, true, false, not, ◌&&◌, ◌||◌, arith, ◌==◌, Bool-cases, Option-cases,
}
use do_logger.Record.Tags.{Name, Vendors, bytes_of}
use do_logger.Sif.Names.{
  decimal, has_tag, name_with_tag, wire_names, field_name_for_tag, validate_name,
  vendor_name_for_tag,
}

-- The wire names with the tags they resolve to.
abbrev wire_table : List (Name × Option ℕ)
wire_table =
    (bytes_of "trace.id", some 2)
    ∷ (bytes_of "span.id", some 3)
    ∷ (bytes_of "user.id", some 4)
    ∷ (bytes_of "session.id", some 5)
    ∷ (bytes_of "request.id", some 6)
    ∷ (bytes_of "host.name", some 7)
    ∷ (bytes_of "app.name", some 8)
    ∷ (bytes_of "app.version", some 9)
    ∷ (bytes_of "environment", some 10)
    ∷ (bytes_of "thread.name", some 11)
    ∷ (bytes_of "container.id", some 14)
    ∷ (bytes_of "process.name", some 13)
    ∷ (bytes_of "source.file", some 15)
    ∷ (bytes_of "source.function", some 16)
    ∷ (bytes_of "source.line", some 17)
    ∷ (bytes_of "source.column", some 18)
    ∷ (bytes_of "exception.type", some 19)
    ∷ (bytes_of "exception.message", some 20)
    ∷ (bytes_of "exception.stacktrace", some 21)
    ∷ (bytes_of "exception.code", some 22)
    ∷ (bytes_of "labels", some 23)
    ∷ (bytes_of "security.audit_tags", some 24)
    ∷ (bytes_of "coroutine.id", some 25)
    ∷ (bytes_of "security.gap", none)
    ∷ []

table_name : ℕ → List (Name × Option ℕ) → Option Name
unfolding has_tag
table_name tag [] = none
table_name tag ((name, t) ∷ rest) = if has_tag tag t then some name else table_name tag rest

name_with_tag-wire_names :
    (v : Vendors) (tag : ℕ) → name_with_tag v tag wire_names ≡ table_name tag wire_table
unfolding name_with_tag table_name
name_with_tag-wire_names v tag = refl

fixed_name : ℕ → Name
unfolding table_name decimal
fixed_name tag = elim (table_name tag wire_table) [
  | some name ↦ name
  | none ↦ bytes_of "ext.unknown." ++ decimal tag
]

field_name_for_tag-fixed_name :
    (v : Vendors) (tag : ℕ)
    → vendor_name_for_tag tag v.tags ≡ none
    → field_name_for_tag v tag ≡ fixed_name tag
unfolding field_name_for_tag fixed_name
field_name_for_tag-fixed_name v tag e =
    rw (name_with_tag-wire_names v tag, field_name_for_tag)
      (elim (Option-cases (table_name tag wire_table)) [
        | inl f ↦
            rw (f, fixed_name)
              (elim (Bool-cases v.ready) [ inl r ↦ rw r (rw e refl) | inr r ↦ rw r refl ])
        | inr f ↦ rw (f.1, fixed_name) refl
      ])

all_below : ℕ → (ℕ → Bool) → Bool
all_below zero p = true
all_below (suc n) p = p n && all_below n p

all_below_sound : (n : ℕ) (p : ℕ → Bool) → all_below n p ≡ true → (k : ℕ) → k < n → p k ≡ true
unfolding all_below
all_below_sound zero p e k h = ground arith
all_below_sound (suc n) p e k h = elim (Bool-cases (k == n)) [
  | inl f ↦ ground arith
  | inr f ↦ all_below_sound n p (ground arith) k (ground arith)
]

same : Bool → Bool → Bool
same true b = b
same false b = not b

-- Whether the name of a core tag is valid as the last theorem says.
as_stated : ℕ → Bool
unfolding same fixed_name validate_name
as_stated tag = same (validate_name (fixed_name tag)) (not (tag == 10 || tag == 23))

all_as_stated : all_below 64 as_stated ≡ true
unfolding all_below as_stated
all_as_stated = refl

same-≡ : (a b : Bool) → same a b ≡ true → a ≡ b
unfolding same
same-≡ true b e = sym e
same-≡ false true e = cc
same-≡ false false e = refl

-- The name that a frame carries for a core tag, below 64, is valid, unless the tag is 10
-- (`environment`) or 23 (`labels`), provided the table of vendor tags has no name for the tag.
pub core_names_valid :
    (v : Vendors) (tag : ℕ)
    → tag < 64
    → vendor_name_for_tag tag v.tags ≡ none
    → validate_name (field_name_for_tag v tag) ≡ not (tag == 10 || tag == 23)
unfolding as_stated
core_names_valid v tag h e =
    rw (field_name_for_tag-fixed_name v tag e)
      (same-≡ _ _ (all_below_sound 64 as_stated all_as_stated tag h))
