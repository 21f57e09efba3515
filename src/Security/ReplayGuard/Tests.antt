-- ===== src/Security/ReplayGuard/Tests.antt =====
-- Runs and witnesses for the replay guard.
use do_logger.Prelude.{◌≡◌, [], ◌∷◌, arith, ℕ, refl, true, false, List}
use do_logger.Security.ReplayGuard.{
  accepted, observe_all, ReplayGuard, ReplayPolicy, new, new_state, observe_state, validate,
}
use do_logger.Security.ReplayGuard.Strict.{
  Classified, accepted_lsns, accepted_lsns-new, new_state-Spans, observe-Classified, upto,
}
use do_logger.Security.ReplayGuard.Permissive.{replay_accepted, fresh}

replay_accepted_example :
    (observe_all fresh ((10, 7) ∷ (9, 8) ∷ (11, 9) ∷ (10, 6) ∷ [])).0
    ≡ accepted ∷ accepted ∷ accepted ∷ accepted ∷ []
replay_accepted_example = replay_accepted 9 7 8 9 6 (omega arith) (omega arith)

abbrev strict_policy : ReplayPolicy
strict_policy = record { window_size = 2; reject_gaps = true; reject_duplicates = false }

abbrev submissions : List (ℕ × ℕ)
submissions = (1, 7) ∷ (3, 8) ∷ (2, 9) ∷ (2, 9) ∷ (3, 4) ∷ (1, 7) ∷ []

abbrev strict_guard : ReplayGuard
strict_guard = record { policy = strict_policy; state = new_state }

accepted_lsns-new_example : (k : ℕ) × (accepted_lsns strict_guard submissions ≡ upto 1 k)
unfolding new validate
accepted_lsns-new_example =
    accepted_lsns-new strict_policy strict_guard submissions refl refl (omega arith)

observe-Classified_example :
    Classified 2 (new_state).highest_lsn 5 (observe_state strict_policy new_state 5 7).0
observe-Classified_example =
    observe-Classified strict_policy refl new_state 1 0 (new_state-Spans 2) 5 7 (omega arith)
