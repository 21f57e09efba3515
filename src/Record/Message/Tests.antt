-- ===== src/Record/Message/Tests.antt =====
-- The payload of core/src/record/mod.rs at small inputs.
use do_logger.Prelude.{◌≡◌, refl, [], ◌∷◌}
use do_logger.Record.Message.{as_bytes, binary, empty, kind, set_with_kind, utf8}
use do_logger.Record.Message.Payload.{visible, as_bytes-set_with_kind}

as_bytes-set_with_kind_example :
    (kind (set_with_kind empty (104 ∷ 105 ∷ []) utf8) ≡ utf8)
    × (as_bytes (set_with_kind empty (104 ∷ 105 ∷ []) utf8) ≡ visible (104 ∷ 105 ∷ []) utf8)
as_bytes-set_with_kind_example = as_bytes-set_with_kind empty (104 ∷ 105 ∷ []) utf8

-- Text behind a NUL byte is lost; as binary bytes it is kept.
cut_at_nul :
    (as_bytes (set_with_kind empty (104 ∷ 0 ∷ 105 ∷ []) utf8) ≡ 104 ∷ [])
    × (as_bytes (set_with_kind empty (104 ∷ 0 ∷ 105 ∷ []) binary) ≡ 104 ∷ 0 ∷ 105 ∷ [])
unfolding as_bytes set_with_kind
cut_at_nul = (refl, refl)
