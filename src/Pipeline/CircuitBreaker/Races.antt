-- ===== src/Pipeline/CircuitBreaker/Races.antt =====
-- A reset that failures interrupt: it clears their count before it takes the mutex.
use do_logger.Prelude.{ℕ, ◌≡◌, ◌≢◌}
use do_logger.Pipeline.CircuitBreaker.{
  CircuitBreaker, CircuitBreakerConfig, failure_counts, idle, new, reset_clears, reset_locks,
}
use do_logger.Pipeline.CircuitBreaker.Threads.{World, enter, tick}

-- Thread 1 stands before the section of its reset, every other thread is idle.
record IsResetting (w : World) (k : ℕ) : Type 0 where
  waits : w.pcs 1 ≡ reset_locks
  others : (t : ℕ) → t ≢ 1 → w.pcs t ≡ idle
  counted : w.breaker.failure_count ≡ k

module _ (c : CircuitBreakerConfig) where
  cleared : World
  cleared = tick 1 0 (enter (record { breaker = new c; pcs = λ _. idle }) 1 reset_clears)

  -- Thread 0 fails once.
  failed : World → World
  failed w = tick 0 0 (tick 0 0 (enter w 0 failure_counts))
