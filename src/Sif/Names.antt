-- ===== src/Sif/Names.antt =====
-- The field names that core/src/sif/codec.rs writes for a tag and accepts from the wire.
pub mod Wire
mod Tests
use do_logger.Prelude.{
  ℕ, ◌+◌, ◌/◌, ◌%◌, Bool, true, false, not, ◌&&◌, ◌||◌, Option, none, some, List, [], ◌∷◌, ◌++◌,
  ltb, leb, ◌==◌, if◌then◌else◌, length,
}
use Prim.Native.String.{String}
use do_logger.Record.Tags.{Name, Vendors, bytes_of, is_vendor, resolve_tag, starts_with, tag_of}

-- `NAMES` of `field_name_for_tag`.
abbrev pub wire_names : List Name
wire_names =
    bytes_of "trace.id"
    ∷ bytes_of "span.id"
    ∷ bytes_of "user.id"
    ∷ bytes_of "session.id"
    ∷ bytes_of "request.id"
    ∷ bytes_of "host.name"
    ∷ bytes_of "app.name"
    ∷ bytes_of "app.version"
    ∷ bytes_of "environment"
    ∷ bytes_of "thread.name"
    ∷ bytes_of "container.id"
    ∷ bytes_of "process.name"
    ∷ bytes_of "source.file"
    ∷ bytes_of "source.function"
    ∷ bytes_of "source.line"
    ∷ bytes_of "source.column"
    ∷ bytes_of "exception.type"
    ∷ bytes_of "exception.message"
    ∷ bytes_of "exception.stacktrace"
    ∷ bytes_of "exception.code"
    ∷ bytes_of "labels"
    ∷ bytes_of "security.audit_tags"
    ∷ bytes_of "coroutine.id"
    ∷ bytes_of "security.gap"
    ∷ []

pub has_tag : ℕ → Option ℕ → Bool
has_tag tag none = false
has_tag tag (some t) = t == tag

-- The first of the names that resolves to the tag.
pub name_with_tag : Vendors → ℕ → List Name → Option Name
unfolding resolve_tag has_tag
name_with_tag v tag [] = none
name_with_tag v tag (name ∷ rest) =
    if has_tag tag (resolve_tag name false v).1 then some name else name_with_tag v tag rest

unfoldable pub vendor_name_for_tag : ℕ → List (Name × ℕ) → Option Name
vendor_name_for_tag tag [] = none
vendor_name_for_tag tag ((name, t) ∷ rest) =
    if t == tag then some name else vendor_name_for_tag tag rest

-- A `u8` in decimal.
pub decimal : ℕ → Name
decimal n =
    if ltb n 10
    then (48 + n) ∷ []
    else if ltb n 100
    then (48 + n / 10) ∷ (48 + n % 10) ∷ []
    else (48 + n / 100) ∷ (48 + n / 10 % 10) ∷ (48 + n % 10) ∷ []

unfoldable pub field_name_for_tag : Vendors → ℕ → Name
unfolding name_with_tag vendor_name_for_tag decimal
field_name_for_tag v tag = elim (name_with_tag v tag wire_names) [
  | some name ↦ name
  | none ↦ elim (if v.ready then vendor_name_for_tag tag v.tags else none) [
    | some name ↦ name
    | none ↦ bytes_of "ext.unknown." ++ decimal tag
  ]
]

-- A name of a vendor tag on the wire enters the table, unless the name is there.
pub register_vendor_tag : Name → ℕ → Vendors → Vendors
unfolding is_vendor tag_of
register_vendor_tag name tag v =
    if leb tag 63 || not (is_vendor name)
    then v
    else if v.ready
    then elim (tag_of name v.tags) [ some t ↦ v | none ↦ record v { tags = (name, tag) ∷ v.tags } ]
    else v

pub contains_byte : ℕ → Name → Bool
contains_byte b [] = false
contains_byte b (c ∷ cs) = c == b || contains_byte b cs

pub is_portable : ℕ → Bool
is_portable b =
    (leb 48 b && leb b 57)
    || (leb 65 b && leb b 90)
    || (leb 97 b && leb b 122)
    || b == 46
    || b == 95
    || b == 45

pub all_portable : Name → Bool
unfolding is_portable
all_portable [] = true
all_portable (b ∷ bs) = is_portable b && all_portable bs

-- Whether a name is valid; the error is always `InvalidFieldName`.
unfoldable pub validate_name : Name → Bool
unfolding contains_byte all_portable starts_with
validate_name name =
    if length name == 0 || ltb 1024 (length name) || contains_byte 0 name
    then false
    else if not (all_portable name)
    then false
    else not (
        not (starts_with (bytes_of "ext.") name)
        && not (starts_with (bytes_of "verified.") name)
        && not (contains_byte 46 name))
