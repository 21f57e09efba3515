-- ===== src/Pipeline/Backpressure/Drops.antt =====
-- Which records backpressure drops, and when the emergency buffer turns on and off.
use do_logger.Record.Level.{LogLevel, as_u8}
use do_logger.Pipeline.Backpressure.{
  BackpressureController, BackpressureConfig, FillRatio, PerformanceProfile, below_error,
  below_warn, block_timeout, check_emergency, dev, drops_allowed, emergency_after, for_profile,
  never, new, newest, validate, is_never,
}
use do_logger.Prelude.{
  ℕ, ◌-◌, ◌≤◌, ◌<◌, ◌≡◌, ◌↔◌, ◌⊎◌, Bool, true, false, none, some, arith, ok, inl, inr, Option-cases,
}

-- What a configuration may be.
abbrev pub Allowed : BackpressureConfig → Type 0
Allowed c =
    ((c.is_audit_domain ≡ true) × (c.block_timeout_ms ≡ 0) × (c.drop_strategy ≡ never))
    ⊎ ((c.is_audit_domain ≡ false) × ((c.block_timeout_ms ≡ 0) ⊎ (100 ≤ c.block_timeout_ms)))

-- A configuration passes `validate` exactly if it keeps the rules: an audit domain blocks without a
-- limit and never drops, and any other domain has no limit or one of at least 100 ms.
pub validate_exact : (c : BackpressureConfig) → (validate c ≡ ok c) ↔ Allowed c
unfolding validate is_never
validate_exact c = (λ h. ground arith, λ h. ground arith)

-- The configuration of every profile passes `validate`, and for an audit domain no profile allows a
-- drop or a limit on blocking.
pub for_profile-validate :
    (p : PerformanceProfile) (is_audit : Bool)
    → (validate (for_profile p is_audit) ≡ ok (for_profile p is_audit))
      × (drops_allowed (new (for_profile p true)) ≡ false)
      × (block_timeout (new (for_profile p true)) ≡ none)
unfolding validate for_profile drops_allowed block_timeout new
for_profile-validate dev a = ground arith
for_profile-validate p a = ground arith

abbrev pub MayDrop : BackpressureController → FillRatio → LogLevel → Type 0
MayDrop c ratio level =
    (ratio.below_90 ≡ false)
    × (ratio.below_95 ≡ false)
    × (c.config.is_audit_domain ≡ false)
    × ((c.config.drop_strategy ≡ newest)
        ⊎ ((c.config.drop_strategy ≡ below_warn) × (as_u8 level < 3))
        ⊎ ((c.config.drop_strategy ≡ below_error) × (as_u8 level < 4)))

-- A check turns the emergency buffer on only when the fill is above 95%, and more than five seconds
-- have passed since the timestamp.
pub check_emergency_on :
    (c : BackpressureController) (now : ℕ)
    → c.emergency_active ≡ false
    → (check_emergency c now).1.emergency_active ≡ true
    → (950 < c.fill_level)
      × (since : ℕ) × (c.emergency_since ≡ some since)
      × (emergency_after < now - since)
unfolding check_emergency
check_emergency_on c now h k = elim (Option-cases c.emergency_since) [
  | inl e ↦ absurd (ground arith)
  | inr (since, e) ↦ (ground arith, since, e, ground arith)
]

-- A check turns the emergency buffer off exactly when it is on and the fill is below 50%; that
-- check still reports it as on.
pub check_emergency_off :
    (c : BackpressureController) (now : ℕ)
    → c.emergency_active ≡ true
    → ((check_emergency c now).0 ≡ true)
      × (((check_emergency c now).1.emergency_active ≡ false) ↔ (c.fill_level < 500))
unfolding check_emergency
check_emergency_off c now h = (ground arith, (λ k. ground arith, λ k. ground arith))
