-- ===== src/Pipeline/CircuitBreaker/Runs.antt =====
-- Histories of calls of the circuit breaker that come one after the other.
use do_logger.Prelude.{
  ℕ, ◌+◌, ◌≤◌, ◌<◌, ◌≡◌, refl, ◌⊎◌, true, false, some, List, [], ◌∷◌, arith, leb, if◌then◌else◌,
  length, ◌-◌,
}
use do_logger.Prelude.Words.{u32_mod, u64_mod}
use do_logger.Pipeline.CircuitBreaker.{
  CircuitBreaker, CircuitBreakerConfig, allow_request, closed, half_open, new, opened,
  report_failure,
}

pub failures : CircuitBreaker → List ℕ → CircuitBreaker
failures b [] = b
failures b (t ∷ ts) = failures (report_failure b t) ts

failures-opened :
    (b : CircuitBreaker) (ts : List ℕ) → b.state ≡ opened → (failures b ts).state ≡ opened
unfolding failures report_failure
failures-opened b [] e = e
failures-opened b (t ∷ ts) e = failures-opened (report_failure b t) ts (ground arith)

report_failure-closed :
    (b : CircuitBreaker) (t : ℕ)
    → b.state ≡ closed
    → b.failure_count + 1 < u32_mod
    → ((report_failure b t).failure_count ≡ b.failure_count + 1)
      × ((report_failure b t).config ≡ b.config)
      × ((report_failure b t).state
          ≡ (if leb b.config.failure_threshold (b.failure_count + 1) then opened else closed))
unfolding report_failure
report_failure-closed b t e h = ground arith

failures_from :
    (b : CircuitBreaker) (ts : List ℕ)
    → b.state ≡ closed
    → b.failure_count < b.config.failure_threshold
    → b.config.failure_threshold < u32_mod
    → (failures b ts).state
      ≡ (if leb b.config.failure_threshold (b.failure_count + length ts) then opened else closed)
unfolding failures
failures_from b [] e h k = ground arith
failures_from b (t ∷ ts) e h k = ground (
  arith,
  report_failure-closed b t e,
  failures_from (report_failure b t) ts,
  failures-opened (report_failure b t) ts,
)

-- A new breaker, with a positive threshold that fits 32 bits, is open after any number of failures,
-- reported one after the other with no other call between them, exactly if that number reaches the
-- threshold; below it, it is closed.
pub failures-new :
    (c : CircuitBreakerConfig) (ts : List ℕ)
    → 0 < c.failure_threshold
    → c.failure_threshold < u32_mod
    → (failures (new c) ts).state ≡ (if leb c.failure_threshold (length ts) then opened else closed)
unfolding new
failures-new c ts h k = ground (arith, failures_from (new c) ts refl h k)

-- How many of the requests at the given times pass, and the breaker after them.
pub requests : CircuitBreaker → List ℕ → ℕ × CircuitBreaker
requests b [] = (0, b)
requests b (t ∷ ts) =
    let (granted, b') = allow_request b t in
    let (n, last) = requests b' ts in (if granted then n + 1 else n, last)

half_open_bound :
    (b : CircuitBreaker) (ts : List ℕ)
    → b.state ≡ half_open
    → (requests b ts).0 ≤ b.probes_remaining
unfolding requests allow_request
half_open_bound b [] e = omega arith
half_open_bound b (t ∷ ts) e = ground (arith, half_open_bound (allow_request b t).1 ts)

allow_opened_cases :
    (b : CircuitBreaker) (t : ℕ)
    → b.state ≡ opened
    → let (granted, b') = allow_request b t in
      (b'.config ≡ b.config)
      × (((granted ≡ false) × (b'.state ≡ opened))
          ⊎ ((granted ≡ true)
              × (b'.state ≡ half_open)
              × (b'.probes_remaining + 1 ≡ b.config.half_open_max_requests))
          ⊎ ((granted ≡ false) × (b'.state ≡ half_open) × (b'.probes_remaining ≡ 0)))
unfolding allow_request
allow_opened_cases b t e = ground arith

-- From an open circuit, however long the callers go on asking, one call after the other and with no
-- report of a result, at most the configured number of probes passes.
pub probes_bounded :
    (b : CircuitBreaker) (ts : List ℕ)
    → b.state ≡ opened
    → (requests b ts).0 ≤ b.config.half_open_max_requests
unfolding requests
probes_bounded b [] e = omega arith
probes_bounded b (t ∷ ts) e = ground (
  arith,
  allow_opened_cases b t e,
  probes_bounded (allow_request b t).1 ts,
  half_open_bound (allow_request b t).1 ts,
)

-- Each of the times is less than `limit` after `since`.
abbrev pub Within : ℕ → ℕ → List ℕ → Type 0
Within since limit [] = Unit {0}
Within since limit (t ∷ ts) = (t - since < limit) × Within since limit ts

-- While less than the timeout has passed since the circuit opened, every request is rejected and
-- counted (the counter short of its wrap), and the circuit stays open with its timestamp.
pub requests-early :
    (b : CircuitBreaker) (since : ℕ) (ts : List ℕ)
    → b.state ≡ opened
    → b.opened_at ≡ some since
    → Within since b.config.timeout_ms ts
    → b.rejected_count + length ts < u64_mod
    → let (n, last) = requests b ts in
      (n ≡ 0)
      × (last.state ≡ opened)
      × (last.opened_at ≡ some since)
      × (last.rejected_count ≡ b.rejected_count + length ts)
unfolding requests allow_request
requests-early b since [] e f h k = ground arith
requests-early b since (t ∷ ts) e f h k =
    ground (arith, requests-early (allow_request b t).1 since ts)
