-- ===== src/Pipeline/CircuitBreaker.antt =====
-- The circuit breaker of a remote sink (core/src/pipeline/circuit_breaker.rs). An `Instant` is a
-- number of milliseconds, an argument of each section that reads the clock. The failures are
-- counted before the mutex is taken: each call is given as its atomic accesses and its section
-- under the mutex, which `step` lets any threads interleave, and as their composition, the call
-- that nothing interrupts. Memory is sequentially consistent. Counters are machine words that wrap,
-- and so does `prev + 1`, as in a release build.
pub mod Threads
pub mod Invariant
pub mod Runs
pub mod Races
mod Tests
use do_logger.Prelude.{
  ℕ, ◌+◌, ◌-◌, ◌≡◌, Bool, true, false, List, [], ◌∷◌, Option, none, some, Result, ok, err, ltb, leb,
  if◌then◌else◌,
}
use do_logger.Prelude.Words.{wrap_add32, wrap_add64}

pub data CircuitState : Type 0 where
  closed opened half_open : CircuitState

pub record CircuitBreakerConfig : Type 0 where
  pub failure_threshold : ℕ
  pub timeout_ms : ℕ
  pub half_open_max_requests : ℕ
  pub roll_window_sec : ℕ
  pub is_audit : Bool

pub default_config : CircuitBreakerConfig
default_config = record {
  failure_threshold = 5;
  timeout_ms = 30_000;
  half_open_max_requests = 3;
  roll_window_sec = 60;
  is_audit = false;
}

-- The two messages of `validate`, with the value that each prints.
pub data ConfigError : Type 0 where
  threshold_too_low timeout_too_short : ℕ → ConfigError

pub validate : CircuitBreakerConfig → Result ConfigError CircuitBreakerConfig
validate c =
    if c.is_audit
    then if ltb c.failure_threshold 3
      then err (threshold_too_low c.failure_threshold)
      else if ltb c.timeout_ms 60_000
      then err (timeout_too_short c.timeout_ms)
      else ok c
    else ok c

pub record CircuitBreaker : Type 0 where
  pub config : CircuitBreakerConfig
  pub state : CircuitState
  pub opened_at : Option ℕ
  pub failure_count : ℕ
  pub success_count : ℕ
  pub rejected_count : ℕ
  pub probes_remaining : ℕ

pub new : CircuitBreakerConfig → CircuitBreaker
new c = record {
  config = c;
  state = closed;
  opened_at = none;
  failure_count = 0;
  success_count = 0;
  rejected_count = 0;
  probes_remaining = 0;
}

abbrev reject : CircuitBreaker → Bool × CircuitBreaker
reject b = (false, record b { rejected_count = wrap_add64 b.rejected_count 1 })

-- The branch of `allow_request` for a half-open circuit.
pub allow_half_open : CircuitBreaker → Bool × CircuitBreaker
allow_half_open b =
    if ltb 0 b.probes_remaining
    then (true, record b { probes_remaining = b.probes_remaining - 1 })
    else reject b

-- What a section under the mutex answers; `none` if it leaves the call to start again.
abbrev answered : Bool × CircuitBreaker → Option Bool × CircuitBreaker
answered (granted, b) = (some granted, b)

-- The branch for an open circuit, which gives the mutex back when it turns half-open.
pub request_opened : CircuitBreaker → Option ℕ → ℕ → Option Bool × CircuitBreaker
request_opened b none now = answered (reject (record b { opened_at = some now }))
request_opened b (some opened_at) now =
    if leb b.config.timeout_ms (now - opened_at)
    then (none, record b { state = half_open; probes_remaining = b.config.half_open_max_requests })
    else answered (reject b)

-- `allow_request` from taking the mutex to giving it back.
pub request_locked : CircuitBreaker → ℕ → Option Bool × CircuitBreaker
unfolding allow_half_open request_opened
request_locked b now = elim b.state [
  | closed ↦ (some true, b)
  | opened ↦ request_opened b b.opened_at now
  | half_open ↦ answered (allow_half_open b)
]

-- The call starts again at most once if nothing interrupts it: the circuit is then half-open.
pub ask_again : Option Bool × CircuitBreaker → Bool × CircuitBreaker
unfolding allow_half_open
ask_again (none, b) = allow_half_open b
ask_again (some granted, b) = (granted, b)

pub allow_request : CircuitBreaker → ℕ → Bool × CircuitBreaker
unfolding request_locked ask_again
allow_request b now = ask_again (request_locked b now)

pub success_counted : CircuitBreaker → CircuitBreaker
success_counted b = record b { success_count = wrap_add64 b.success_count 1 }

-- The store of zero with which `report_success` and `reset` begin.
pub failures_cleared : CircuitBreaker → CircuitBreaker
failures_cleared b = record b { failure_count = 0 }

pub success_locked : CircuitBreaker → CircuitBreaker
success_locked b = elim b.state [
  | half_open ↦ record b { state = closed; opened_at = none }
  | _ ↦ b
]

pub report_success : CircuitBreaker → CircuitBreaker
unfolding success_counted failures_cleared success_locked
report_success b = success_locked (failures_cleared (success_counted b))

pub failure_counted : CircuitBreaker → CircuitBreaker
failure_counted b = record b { failure_count = wrap_add32 b.failure_count 1 }

-- `prev` is what the counter held before it was counted up.
pub failure_locked : ℕ → ℕ → CircuitBreaker → CircuitBreaker
failure_locked prev now b = elim b.state [
  | closed ↦
      if leb b.config.failure_threshold (wrap_add32 prev 1)
      then record b { state = opened; opened_at = some now }
      else b
  | half_open ↦ record b { state = opened; opened_at = some now; probes_remaining = 0 }
  | opened ↦ record b { opened_at = some now }
]

pub report_failure : CircuitBreaker → ℕ → CircuitBreaker
unfolding failure_counted failure_locked
report_failure b now = failure_locked b.failure_count now (failure_counted b)

pub reset_locked : CircuitBreaker → CircuitBreaker
reset_locked b = record b { state = closed; opened_at = none; probes_remaining = 0 }

pub reset : CircuitBreaker → CircuitBreaker
unfolding failures_cleared reset_locked
reset b = reset_locked (failures_cleared b)

-- Where a thread stands: before an access outside the mutex, or before the section under it.
pub data Pc : Type 0 where
  idle : Pc
  request_locks : Pc
  success_counts success_clears success_locks : Pc
  failure_counts : Pc
  failure_locks : (prev : ℕ) → Pc
  reset_clears reset_locks : Pc

-- What a thread does next to the breaker, and where it stands then.
pub step : ℕ → CircuitBreaker → Pc → CircuitBreaker × Pc
unfolding request_locked success_counted failures_cleared success_locked failure_counted
    failure_locked reset_locked
step now b idle = (b, idle)
step now b request_locks =
    let (answer, b') = request_locked b now in
    (b', elim answer [ none ↦ request_locks | some granted ↦ idle ])
step now b success_counts = (success_counted b, success_clears)
step now b success_clears = (failures_cleared b, success_locks)
step now b success_locks = (success_locked b, idle)
step now b failure_counts = (failure_counted b, failure_locks b.failure_count)
step now b (failure_locks prev) = (failure_locked prev now b, idle)
step now b reset_clears = (failures_cleared b, reset_locks)
step now b reset_locks = (reset_locked b, idle)
