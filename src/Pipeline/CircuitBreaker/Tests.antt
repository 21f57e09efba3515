-- ===== src/Pipeline/CircuitBreaker/Tests.antt =====
-- Runs and witnesses for the circuit breaker.
use do_logger.Prelude.{◌≤◌, ◌≡◌, refl, false, some, [], ◌∷◌, arith}
use do_logger.Pipeline.CircuitBreaker.{CircuitBreaker, failure_counts, idle, new, opened}
use do_logger.Pipeline.CircuitBreaker.Threads.{
  Reach, World, begin, enter, failure_entry, start, tick, ticked,
}
use do_logger.Pipeline.CircuitBreaker.Invariant.{IsValid, Reach-IsValid}
use do_logger.Pipeline.CircuitBreaker.Runs.{
  failures, failures-new, probes_bounded, requests, requests-early,
}

-- Open since 1000, with a timeout of 30 seconds.
abbrev tripped : CircuitBreaker
tripped = record {
  config = record {
    failure_threshold = 5;
    timeout_ms = 30_000;
    half_open_max_requests = 3;
    roll_window_sec = 60;
    is_audit = false;
  };
  state = opened;
  opened_at = some 1000;
  failure_count = 5;
  success_count = 0;
  rejected_count = 0;
  probes_remaining = 0;
}

-- A new breaker on which thread 0 begins and reports a failure.
abbrev counting : World
counting = enter (record { breaker = new tripped.config; pcs = λ _. idle }) 0 failure_counts

counting-Reach : Reach tripped.config counting
counting-Reach = begin 0 failure_counts (start refl) refl (failure_entry refl) refl

Reach-IsValid_example : IsValid tripped.config (tick 0 7 (tick 0 7 counting)).breaker
Reach-IsValid_example =
    Reach-IsValid tripped.config (tick 0 7 (tick 0 7 counting))
      (ticked 0 7 (ticked 0 7 counting-Reach refl) refl)

failures-new_example : (failures (new tripped.config) (1 ∷ 2 ∷ 3 ∷ 4 ∷ 5 ∷ [])).state ≡ opened
failures-new_example =
    failures-new tripped.config (1 ∷ 2 ∷ 3 ∷ 4 ∷ 5 ∷ []) (omega arith) (omega arith)

probes_bounded_example : (requests tripped (2000 ∷ 40_000 ∷ 40_001 ∷ [])).0 ≤ 3
probes_bounded_example = probes_bounded tripped (2000 ∷ 40_000 ∷ 40_001 ∷ []) refl

early_requests :
    let (n, last) = requests tripped (2000 ∷ 30_999 ∷ []) in
    (n ≡ 0) × (last.state ≡ opened) × (last.opened_at ≡ some 1000) × (last.rejected_count ≡ 2)
early_requests =
    requests-early tripped 1000 (2000 ∷ 30_999 ∷ []) refl refl (omega arith) (omega arith)
