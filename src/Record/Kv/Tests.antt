-- ===== src/Record/Kv/Tests.antt =====
-- The slot of core/src/record/kv.rs at small inputs.
use do_logger.Prelude.{ok, err, ℕ, ◌≡◌, refl, ◌⊎◌, some, List, [], ◌∷◌, arith, replicate}
use do_logger.Record.Kv.{
  KvSlot, empty, get, put, serialize_into, stored, string, tag_reserved, type_as_u8,
}
use do_logger.Record.Kv.Canonical.{IsValid, get-put}

empty-IsValid : IsValid empty
empty-IsValid = record { area = refl; inline = λ ne. omega arith }

get-put_example :
    (◌≡◌ {A = ℕ} 2 0 × (put empty 2 string (104 ∷ 105 ∷ []) ≡ err tag_reserved))
    ⊎ ((s' : KvSlot) × (put empty 2 string (104 ∷ 105 ∷ []) ≡ ok s')
        × IsValid s'
        × (get s' ≡ some (2, type_as_u8 string, 104 ∷ 105 ∷ [])))
get-put_example = get-put empty 2 string (104 ∷ 105 ∷ []) empty-IsValid

-- Thirty bytes go to a buffer, and still serialize behind their one-byte length.
abbrev thirty : List ℕ
thirty = replicate 30 7

stored-thirty :
    (serialize_into (stored empty 2 5 thirty) [] ≡ 2 ∷ 5 ∷ 30 ∷ thirty)
    × ((stored empty 2 5 thirty).len ≡ 255)
unfolding serialize_into stored
stored-thirty = (refl, refl)
