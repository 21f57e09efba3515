-- ===== src/Pipeline/Backpressure/Tests.antt =====
-- Runs and witnesses for backpressure.
use do_logger.Pipeline.Backpressure.{
  BackpressureController, balanced, below_warn, check_emergency, emergency_after, for_profile,
  validate,
}
use do_logger.Pipeline.Backpressure.Drops.{
  validate_exact, Allowed, check_emergency_off, check_emergency_on, for_profile-validate,
}
use do_logger.Prelude.{ℕ, ◌-◌, ◌<◌, ◌≡◌, refl, ◌↔◌, true, false, some, ok}

-- 96% full for six seconds, with no emergency yet.
abbrev filling : BackpressureController
filling = record {
  config = record { block_timeout_ms = 3000; drop_strategy = below_warn; is_audit_domain = false };
  blocked_count = 4;
  dropped_count = 1;
  accepted_count = 20;
  emergency_active = false;
  emergency_since = some 1_000_000_000;
  fill_level = 960;
}

validated_profiles : (validate filling.config ≡ ok filling.config) ↔ Allowed filling.config
validated_profiles = validate_exact filling.config

profile_validates : validate (for_profile balanced false) ≡ ok (for_profile balanced false)
profile_validates = (for_profile-validate balanced false).0

filling_turns_on :
    (950 < 960)
    × (since : ℕ) × (filling.emergency_since ≡ some since)
    × (emergency_after < 7_000_000_000 - since)
unfolding check_emergency
filling_turns_on = check_emergency_on filling 7_000_000_000 refl refl

check_emergency_off_example :
    let c : BackpressureController = record filling { emergency_active = true; fill_level = 400 } in
    ((check_emergency c 7).0 ≡ true)
    × (((check_emergency c 7).1.emergency_active ≡ false) ↔ (400 < 500))
check_emergency_off_example =
    check_emergency_off (record filling { emergency_active = true; fill_level = 400 }) 7 refl
