-- ===== src/Pipeline/Policy/Tests.antt =====
-- Runs and witnesses for the policies.
use do_logger.Record.Level.{as_u8, debug, info, warn}
use do_logger.Pipeline.Policy.{
  evaluate, new, refill_interval, refills, evaluate_level, min_level, new_policy,
}
use do_logger.Pipeline.Policy.Limits.{
  evaluate_all, evaluate_all_bound, evaluate_level_exact, tokens-new,
}
use do_logger.Prelude.{ℕ, ◌+◌, ◌*◌, ◌≤◌, ◌≡◌, refl, [], ◌∷◌, arith, ◌↔◌, true}

-- 100 records a second and a burst of 2: the third record of a burst is dropped.
burst_drops : (evaluate_all (new 100 2 0) (1 ∷ 2 ∷ 3 ∷ [])).0 ≡ 2
unfolding evaluate_all new evaluate refills
burst_drops = refl

evaluate_all_bound_example :
    let (n, last) = evaluate_all (new 100 2 0) (1 ∷ 2 ∷ 100_000_003 ∷ []) in
    (r : ℕ) × (r * refill_interval + 0 ≤ last.last_refill)
    × (n * 1000 + last.tokens ≤ 2000 + r * (10 * 1000))
unfolding new
evaluate_all_bound_example =
    evaluate_all_bound (1 ∷ 2 ∷ 100_000_003 ∷ []) (new 100 2 0) (omega arith)

two_tokens : (evaluate_all (new 100 2 0) (1 ∷ 900_000_000 ∷ [])).1.tokens ≤ 2000
two_tokens = tokens-new 100 2 0 (1 ∷ 900_000_000 ∷ [])

levels_compared :
    ((evaluate_level (new_policy warn) info).0 ≡ true)
    ↔ (as_u8 (min_level (new_policy warn)) ≤ as_u8 info)
levels_compared = (evaluate_level_exact (new_policy warn) info debug).0
