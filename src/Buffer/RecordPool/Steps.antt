-- ===== src/Buffer/RecordPool/Steps.antt =====
-- Threads that call the pool, one atomic access at a time, and the worlds that they can come to.
use do_logger.Prelude.{ℕ, zero, suc, ◌≡◌, ◌≢◌, Bool, false, Option, none, some, List, [], ◌∷◌}
use do_logger.Buffer.RecordPool.{
  Pc, RecordPool, Turn, new_pool, step, idle, alloc_head, free_reset, update,
}
use do_logger.Buffer.RecordPool.Stack.{count, remove}

-- The threads over one pool, and the records that are handed out and not given back.
pub record World : Type 0 where
  pub pool : RecordPool
  pub pcs : ℕ → Pc
  pub held : List ℕ

unfoldable pub hand_out : Option ℕ → List ℕ → List ℕ
hand_out none held = held
hand_out (some i) held = i ∷ held

abbrev pub apply : World → ℕ → Turn → World
apply w t turn = record {
  pool = turn.pool;
  pcs = update w.pcs t turn.pc;
  held = hand_out turn.got w.held;
}

-- An idle thread calls `alloc`, or `free` with a record that is handed out; or any thread steps.
pub data Move (w : World) : World → Type 0 where
  begin_alloc : (t : ℕ) → w.pcs t ≡ idle → Move w (record w { pcs = update w.pcs t alloc_head })
  begin_free :
      (t ptr : ℕ)
      → w.pcs t ≡ idle
      → count ptr w.held ≢ 0
      → Move w (record w { pcs = update w.pcs t (free_reset ptr); held = remove ptr w.held })
  tick : (t : ℕ) (weak : Bool) → Move w (apply w t (step weak w.pool (w.pcs t)))

pub data Reach (capacity : ℕ) : World → Type 0 where
  start :
      {p : RecordPool}
      → new_pool capacity ≡ some p
      → Reach capacity (record { pool = p; pcs = λ _. idle; held = [] })
  later : {v w : World} → Reach capacity v → Move v w → Reach capacity w

-- Steps of one thread with none of another between them.
unfoldable pub ticks : ℕ → World → ℕ → World
ticks zero w t = w
ticks (suc n) w t = ticks n (apply w t (step false w.pool (w.pcs t))) t

pub ticks-Reach :
    {capacity : ℕ} (n : ℕ) (w : World) (t : ℕ) → Reach capacity w → Reach capacity (ticks n w t)
unfolding ticks
ticks-Reach zero w t r = r
ticks-Reach (suc n) w t r =
    ticks-Reach n (apply w t (step false w.pool (w.pcs t))) t
      (later {w = apply w t (step false w.pool (w.pcs t))} r (tick t false))
