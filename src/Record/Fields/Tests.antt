-- ===== src/Record/Fields/Tests.antt =====
-- The fields of a record of core/src/record/mod.rs at small inputs.
use do_logger.Prelude.{ℕ, ◌≡◌, refl, ◌≢◌, some, [], ◌∷◌, arith, ◌==◌, if◌then◌else◌}
use do_logger.Record.Message
use do_logger.Record.Kv.{get, string, type_as_u8}
use do_logger.Record.Fields.{id_hi, id_lo, kv_get, kv_put, new, set_id, slots}
use do_logger.Record.Fields.Lookup.{new-AllValid, AllValid, kv_get-kv_put, id-set_id}
use do_logger.Record.Fields.Canonical.{InRange, SameContent, hash_input_inj, present}

kv_get-kv_put_example :
    AllValid (slots (kv_put 7 string (104 ∷ []) (new 3)))
    × ((t : ℕ)
        → t ≢ 0
        → kv_get (kv_put 7 string (104 ∷ []) (new 3)) t
          ≡ (if 7 == t then some (type_as_u8 string, 104 ∷ []) else kv_get (new 3) t))
kv_get-kv_put_example =
    kv_get-kv_put 7 string (104 ∷ []) (new 3) (λ e. cc) (omega arith) (new-AllValid 3)

set_id_read_back : (id_hi (set_id 258 772 (new 3)) ≡ 258) × (id_lo (set_id 258 772 (new 3)) ≡ 772)
set_id_read_back = id-set_id 258 772 (new 3) (omega arith) (omega arith) (new-AllValid 3)

new-InRange : InRange (new 3)
unfolding present get Message.as_bytes
new-InRange = record {
  timestamp = omega arith;
  process_id = omega arith;
  thread_id = omega arith;
  lsn = omega arith;
  flags = omega arith;
  pool_index = omega arith;
  message = omega arith;
  fields = tt;
}

hash_input_inj_example : SameContent (new 3) (new 3)
hash_input_inj_example = hash_input_inj (new 3) (new 3) new-InRange new-InRange refl
