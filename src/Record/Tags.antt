-- ===== src/Record/Tags.antt =====
-- Field names and their tags: the tag tables of core/src/record/mod.rs. A name is its bytes. The
-- process-wide table of vendor tags and the counter of the next tag are a state that the operations
-- take and return.
pub mod Allocation
mod Tests
use Prim.Native.String.{String}
use Prim.Native.Char.{code}
use do_logger.Prelude.{
  ℕ, ◌+◌, Bool, true, false, ◌&&◌, ◌||◌, Option, none, some, List, [], ◌∷◌, ltb, ◌==◌,
  if◌then◌else◌,
}

abbrev pub Name : Type 0
Name = List ℕ

abbrev pub bytes_of : String → Name
bytes_of String.[] = []
bytes_of (String.◌∷◌ c s) = code c ∷ bytes_of s

unfoldable pub name_eq : Name → Name → Bool
name_eq [] [] = true
name_eq [] (y ∷ ys) = false
name_eq (x ∷ xs) [] = false
name_eq (x ∷ xs) (y ∷ ys) = x == y && name_eq xs ys

unfoldable pub starts_with : Name → Name → Bool
starts_with [] name = true
starts_with (p ∷ ps) [] = false
starts_with (p ∷ ps) (c ∷ cs) = p == c && starts_with ps cs

-- `VENDOR_TAGS`, whether it was ever initialised, and `VENDOR_NEXT`.
pub record Vendors : Type 0 where
  pub ready : Bool
  pub tags : List (Name × ℕ)
  pub next : ℕ

abbrev pub no_vendors : Vendors
no_vendors = record { ready = false; tags = []; next = 64 }

unfoldable pub tag_of : Name → List (Name × ℕ) → Option ℕ
unfolding name_eq
tag_of name [] = none
tag_of name ((n, t) ∷ rest) = if name_eq n name then some t else tag_of name rest

-- A new name takes the next tag, while there is one.
unfoldable pub allocate_tag : Name → Vendors → Vendors × Option ℕ
allocate_tag name v =
    if ltb 192 v.next
    then (v, none)
    else (record v { tags = (name, v.next) ∷ v.tags; next = v.next + 1 }, some v.next)

unfoldable pub vendor_tag_for : Name → Bool → Vendors → Vendors × Option ℕ
unfolding tag_of allocate_tag
vendor_tag_for name allocate v =
    let v' = record v { ready = true } in
    elim (tag_of name v'.tags) [
      | some tag ↦ (v', some tag)
      | none ↦ if allocate then allocate_tag name v' else (v', none)
    ]

-- The arms of `resolve_tag`, without the arm of the vendor prefixes.
abbrev pub core_tags : List (Name × Option ℕ)
core_tags =
    (bytes_of "id", some 1)
    ∷ (bytes_of "record.id", some 1)
    ∷ (bytes_of "trace.id", some 2)
    ∷ (bytes_of "span.id", some 3)
    ∷ (bytes_of "user.id", some 4)
    ∷ (bytes_of "session.id", some 5)
    ∷ (bytes_of "request.id", some 6)
    ∷ (bytes_of "host.name", some 7)
    ∷ (bytes_of "app.name", some 8)
    ∷ (bytes_of "app.version", some 9)
    ∷ (bytes_of "environment", some 10)
    ∷ (bytes_of "thread.name", some 11)
    ∷ (bytes_of "process.name", some 13)
    ∷ (bytes_of "container.id", some 14)
    ∷ (bytes_of "source.file", some 15)
    ∷ (bytes_of "source.function", some 16)
    ∷ (bytes_of "source.line", some 17)
    ∷ (bytes_of "source.column", some 18)
    ∷ (bytes_of "exception.type", some 19)
    ∷ (bytes_of "exception.message", some 20)
    ∷ (bytes_of "exception.stacktrace", some 21)
    ∷ (bytes_of "exception.code", some 22)
    ∷ (bytes_of "labels", some 23)
    ∷ (bytes_of "security.audit_tags", some 24)
    ∷ (bytes_of "audit_tags", some 24)
    ∷ (bytes_of "coroutine.id", some 25)
    ∷ (bytes_of "timestamp", none)
    ∷ (bytes_of "record.timestamp", none)
    ∷ (bytes_of "level", none)
    ∷ (bytes_of "message", none)
    ∷ (bytes_of "process.id", none)
    ∷ (bytes_of "record.process_id", none)
    ∷ (bytes_of "thread.id", none)
    ∷ (bytes_of "record.thread_id", none)
    ∷ (bytes_of "security.lsn", none)
    ∷ (bytes_of "security.gap", none)
    ∷ (bytes_of "source_file", some 15)
    ∷ (bytes_of "source_function", some 16)
    ∷ (bytes_of "source_line", some 17)
    ∷ (bytes_of "source_column", some 18)
    ∷ (bytes_of "thread_id", none)
    ∷ (bytes_of "process_id", none)
    ∷ (bytes_of "thread_name", some 11)
    ∷ (bytes_of "process_name", some 13)
    ∷ (bytes_of "host_name", some 7)
    ∷ (bytes_of "container_id", some 14)
    ∷ (bytes_of "app_name", some 8)
    ∷ (bytes_of "app_version", some 9)
    ∷ (bytes_of "exception_type", some 19)
    ∷ (bytes_of "exception_message", some 20)
    ∷ (bytes_of "exception_stacktrace", some 21)
    ∷ (bytes_of "exception_code", some 22)
    ∷ (bytes_of "coroutine_id", some 25)
    ∷ []

unfoldable pub core_tag : Name → List (Name × Option ℕ) → Option (Option ℕ)
unfolding name_eq
core_tag name [] = none
core_tag name ((n, t) ∷ rest) = if name_eq n name then some t else core_tag name rest

unfoldable pub is_vendor : Name → Bool
unfolding starts_with
is_vendor name = starts_with (bytes_of "ext.") name || starts_with (bytes_of "verified.") name

unfoldable pub resolve_tag : Name → Bool → Vendors → Vendors × Option ℕ
unfolding core_tag is_vendor vendor_tag_for
resolve_tag name allocate v = elim (core_tag name core_tags) [
  | some t ↦ (v, t)
  | none ↦ if is_vendor name then vendor_tag_for name allocate v else (v, none)
]
