-- ===== src/Record/Kv/Canonical.antt =====
-- The layout of a slot, and what a slot gives back after a put (core/src/record/kv.rs).
use do_logger.Prelude.{
  ok, err, ℕ, ◌≤◌, ◌≡◌, ◌≢◌, ◌⊎◌, some, List, length, refl, inl, inr, arith, ◌==◌, Bool-cases,
  length-append, drop, length-drop,
}
use do_logger.Prelude.Bytes.{take-append}
use do_logger.Record.Kv.{
  KvSlot, KvType, drop_overflow, get, put, tag_reserved, type_as_u8, stored, value_slice,
}

-- The layout that every operation keeps: 29 bytes of value area, and no more used inline.
pub record IsValid (s : KvSlot) : Type 0 where
  pub area : length s.value ≡ 29
  pub inline : s.len ≢ 255 → s.len ≤ 29

pub drop_overflow-IsValid : (s : KvSlot) → IsValid s → IsValid (drop_overflow s)
unfolding drop_overflow
drop_overflow-IsValid s v = ground arith

pub stored-IsValid :
    (s : KvSlot) (t ty : ℕ) (bytes : List ℕ) → IsValid s → IsValid (stored s t ty bytes)
unfolding stored
stored-IsValid s t ty bytes v =
    ground
      (arith, length-append bytes (drop (length bytes) s.value), length-drop (length bytes) s.value)

stored-slice : (s : KvSlot) (t ty : ℕ) (bytes : List ℕ) → value_slice (stored s t ty bytes) ≡ bytes
unfolding stored value_slice
stored-slice s t ty bytes = ground (arith, take-append bytes (drop (length bytes) s.value))

pub stored-parts :
    (s : KvSlot) (t ty : ℕ) (bytes : List ℕ)
    → ((stored s t ty bytes).tag ≡ t) × ((stored s t ty bytes).ty ≡ ty)
unfolding stored
stored-parts s t ty bytes = ground arith

pub stored-get :
    (s : KvSlot) (t ty : ℕ) (bytes : List ℕ)
    → t ≢ 0
    → get (stored s t ty bytes) ≡ some (t, ty, bytes)
unfolding get
stored-get s t ty bytes ne = ground (arith, stored-parts s t ty bytes, stored-slice s t ty bytes)

-- Whatever a valid slot held, after a `put` it is valid and `get` gives back the tag, the type byte
-- and exactly the bytes that were put, inline or not; and `put` fails for the reserved tag alone.
pub get-put :
    (s : KvSlot) (t : ℕ) (ty : KvType) (bytes : List ℕ)
    → IsValid s
    → ((t ≡ 0) × (put s t ty bytes ≡ err tag_reserved))
      ⊎ ((s' : KvSlot) × (put s t ty bytes ≡ ok s')
          × IsValid s'
          × (get s' ≡ some (t, type_as_u8 ty, bytes)))
unfolding put
get-put s t ty bytes v = elim (Bool-cases (t == 0)) [
  | inl e ↦ inl (ground arith, rw e refl)
  | inr e ↦ inr (
    stored (drop_overflow s) t (type_as_u8 ty) bytes,
    rw e refl,
    stored-IsValid (drop_overflow s) t (type_as_u8 ty) bytes (drop_overflow-IsValid s v),
    stored-get (drop_overflow s) t (type_as_u8 ty) bytes (ground arith),
  )
]
