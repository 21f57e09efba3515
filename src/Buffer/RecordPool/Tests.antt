-- ===== src/Buffer/RecordPool/Tests.antt =====
-- The pool of core/src/buffer/object_pool.rs at small sizes.
use do_logger.Prelude.{ℕ, ◌<◌, ◌≡◌, refl, ◌↔◌, none, some, [], ◌∷◌, arith, length}
use do_logger.Record.Fields.{new}
use do_logger.Buffer.RecordPool.{RecordPool, alloc, fresh, new_pool}
use do_logger.Buffer.RecordPool.Stack.{count}
use do_logger.Buffer.RecordPool.Calls.{Run, alloc_exact, allocated, created}
use do_logger.Buffer.RecordPool.Steps.{Reach, World}
use do_logger.Buffer.RecordPool.Races.{handed_out_twice}

abbrev one_out : RecordPool
one_out = (alloc (fresh 2)).0

one_out-Run : Run 2 one_out (0 ∷ [])
unfolding new_pool alloc fresh
one_out-Run = allocated 0 (created refl) refl

alloc_exact_example :
    (((alloc one_out).1 ≡ none) ↔ (length {A = ℕ} (0 ∷ []) ≡ 2))
    × ((i : ℕ)
        → (alloc one_out).1 ≡ some i
        → (i < 2) × (count i (0 ∷ []) ≡ 0) × (one_out.records i ≡ new i))
alloc_exact_example = alloc_exact 2 one_out (0 ∷ []) (omega arith) one_out-Run

handed_out_twice_example : (w : World) × Reach 4 w × (w.held ≡ 1 ∷ 0 ∷ 1 ∷ [])
handed_out_twice_example = handed_out_twice 4 (omega arith)
