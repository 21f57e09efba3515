-- ===== src/Record/Tags/Tests.antt =====
-- Runs of the tag tables.
use do_logger.Prelude.{refl, ◌≡◌, ◌≤◌, true, false, List, [], ◌∷◌, some, Bool}
use do_logger.Record.Tags.{Name, bytes_of, no_vendors, resolve_tag, tag_of}
use do_logger.Record.Tags.Allocation.{vendor_tags_distinct, resolved}

abbrev three_calls : List (Name × Bool)
three_calls = (bytes_of "ext.a", true) ∷ (bytes_of "user.id", true) ∷ (bytes_of "ext.b", true) ∷ []

two_tags : tag_of (bytes_of "ext.b") (resolved three_calls no_vendors).tags ≡ some 65
unfolding tag_of resolved resolve_tag
two_tags = refl

vendor_tags_distinct_example :
    (64 ≤ 65)
    × (65 ≤ 192)
    × (tag_of (bytes_of "ext.a") (resolved three_calls no_vendors).tags ≡ some 65
        → bytes_of "ext.b" ≡ bytes_of "ext.a")
vendor_tags_distinct_example =
    vendor_tags_distinct three_calls (bytes_of "ext.b") (bytes_of "ext.a") 65 two_tags

core_names_keep_their_tag : (resolve_tag (bytes_of "trace.id") false no_vendors).1 ≡ some 2
unfolding resolve_tag
core_names_keep_their_tag = refl
