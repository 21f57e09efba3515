-- ===== src/Pipeline/CircuitBreaker/Threads.antt =====
-- Threads that call one circuit breaker, and the worlds that they can come to.
use do_logger.Prelude.{ℕ, ◌≡◌, ◌==◌, if◌then◌else◌}
use do_logger.Pipeline.CircuitBreaker.{
  CircuitBreaker, CircuitBreakerConfig, Pc, new, step, idle, request_locks, success_counts,
  failure_counts, reset_clears,
}

pub record World : Type 0 where
  pub breaker : CircuitBreaker
  pub pcs : ℕ → Pc

abbrev pub update : (ℕ → Pc) → ℕ → Pc → ℕ → Pc
update pcs t pc u = if t == u then pc else pcs u

-- The first place of each call.
pub data IsEntry : Pc → Type 0 where
  request_entry : {pc : Pc} → pc ≡ request_locks → IsEntry pc
  success_entry : {pc : Pc} → pc ≡ success_counts → IsEntry pc
  failure_entry : {pc : Pc} → pc ≡ failure_counts → IsEntry pc
  reset_entry : {pc : Pc} → pc ≡ reset_clears → IsEntry pc

abbrev pub enter : World → ℕ → Pc → World
enter w t pc = record w { pcs = update w.pcs t pc }

-- A thread takes its next step, at the time that it reads if it reads the clock.
unfoldable pub tick : ℕ → ℕ → World → World
tick t now w =
    let (b, pc) = step now w.breaker (w.pcs t) in record { breaker = b; pcs = update w.pcs t pc }

-- The worlds that a new breaker can come to, whatever threads call it and however they interleave.
pub data Reach (c : CircuitBreakerConfig) : World → Type 0 where
  start : {w : World} → w ≡ record { breaker = new c; pcs = λ _. idle } → Reach c w
  begin :
      {v w : World} (t : ℕ) (pc : Pc)
      → Reach c v
      → v.pcs t ≡ idle
      → IsEntry pc
      → w ≡ enter v t pc
      → Reach c w
  ticked : {v w : World} (t now : ℕ) → Reach c v → w ≡ tick t now v → Reach c w
