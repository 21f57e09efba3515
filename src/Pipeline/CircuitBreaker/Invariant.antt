-- ===== src/Pipeline/CircuitBreaker/Invariant.antt =====
-- The state invariant of the circuit breaker and the edges of its state machine, whatever the
-- threads that call it do.
use do_logger.Prelude.{ℕ, ◌+◌, ◌-◌, ◌≤◌, ◌≡◌, sym, none, some, arith, ◌≢◌, subst}
use do_logger.Pipeline.CircuitBreaker.{
  CircuitState, closed, opened, half_open, CircuitBreakerConfig, CircuitBreaker, new, Pc, step,
  request_locks, success_locks, failure_locks, reset_locks,
}
use do_logger.Pipeline.CircuitBreaker.Threads.{Reach, World, start, begin, ticked, tick}

pub record IsValid (c : CircuitBreakerConfig) (b : CircuitBreaker) : Type 0 where
  pub configured : b.config ≡ c
  pub closed_fresh : b.state ≡ closed → b.opened_at ≡ none
  pub tripped_since : b.state ≢ closed → b.opened_at ≢ none
  pub probes_bound : b.probes_remaining ≤ c.half_open_max_requests

new-IsValid : (c : CircuitBreakerConfig) → IsValid c (new c)
unfolding new
new-IsValid c = ground arith

module _ (c : CircuitBreakerConfig) (now : ℕ) (b : CircuitBreaker) (v : IsValid c b) where
  step-IsValid : (pc : Pc) → IsValid c (step now b pc).0
  unfolding step
  step-IsValid request_locks = ground arith
  step-IsValid success_locks = ground arith
  step-IsValid (failure_locks prev) = ground arith
  step-IsValid reset_locks = ground arith
  step-IsValid pc = ground arith

-- In every world that threads can bring a new breaker to, in whatever order the accesses and the
-- sections of their calls come: the configuration is as it was, a closed circuit has no timestamp,
-- an open or half-open one has one, and at most the configured probes are left.
pub Reach-IsValid : (c : CircuitBreakerConfig) (w : World) → Reach c w → IsValid c w.breaker
unfolding tick
Reach-IsValid c w (start e) = subst (λ w. IsValid c w.breaker) (sym e) (new-IsValid c)
Reach-IsValid c w (begin {v = v} t pc r _ _ e) =
    subst (λ w. IsValid c w.breaker) (sym e) (Reach-IsValid c v r)
Reach-IsValid c w (ticked {v = v} t now r e) =
    subst (λ w. IsValid c w.breaker) (sym e)
      (step-IsValid c now v.breaker (Reach-IsValid c v r) (v.pcs t))

-- The edges of the diagram, with their guards; `stays` is a step that leaves the state alone.
pub data Edge (now : ℕ) (b : CircuitBreaker) : Pc → CircuitState → Type 0 where
  stays : (pc : Pc) {s : CircuitState} → b.state ≡ s → Edge now b pc s
  trips :
      (prev : ℕ)
      → b.state ≡ closed
      → b.config.failure_threshold ≤ prev + 1
      → Edge now b (failure_locks prev) opened
  probes :
      (since : ℕ)
      → b.state ≡ opened
      → b.opened_at ≡ some since
      → b.config.timeout_ms ≤ now - since
      → Edge now b request_locks half_open
  recovers : b.state ≡ half_open → Edge now b success_locks closed
  relapses : (prev : ℕ) → b.state ≡ half_open → Edge now b (failure_locks prev) opened
  restored : Edge now b reset_locks closed
