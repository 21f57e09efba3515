-- ===== src/Pipeline/Policy.antt =====
-- The pre-filter policies (core/src/pipeline/policy.rs).
-- An `Instant` is a number of nanoseconds. A compare-exchange loop is one step.
pub mod Limits
mod Tests
use do_logger.Record.Level.{LogLevel, as_u8, audit, from_u8}
use do_logger.Prelude.{
  ℕ, ◌-◌, ◌/◌, ◌%◌, min, max, Bool, true, false, none, some, ltb, leb, ◌==◌, if◌then◌else◌,
}
use do_logger.Prelude.Words.{sat_add64, sat_mul64, u64_mod, wrap_add64}

pub record RateLimiter : Type 0 where
  pub rate_per_sec : ℕ
  pub burst_size : ℕ
  pub tokens : ℕ
  pub last_refill : ℕ
  pub tokens_per_refill : ℕ
  pub allowed_count : ℕ
  pub dropped_count : ℕ

-- `refill_interval`, 100 ms.
abbrev pub refill_interval : ℕ
refill_interval = 100_000_000

abbrev as_millis : ℕ → ℕ
as_millis ns = ns / 1_000_000

pub new : ℕ → ℕ → ℕ → RateLimiter
new rate_per_sec burst_size now = record {
  rate_per_sec = rate_per_sec;
  burst_size = burst_size;
  tokens = sat_mul64 burst_size 1000;
  last_refill = now;
  tokens_per_refill = if ltb 0 rate_per_sec then max (rate_per_sec / 10) 1 else 0;
  allowed_count = 0;
  dropped_count = 0;
}

-- The refills that `elapsed` holds; the cast to `u64` wraps.
pub refills : ℕ → ℕ
refills elapsed = as_millis elapsed / as_millis refill_interval % u64_mod

pub refill : RateLimiter → ℕ → RateLimiter
refill l now =
    if leb refill_interval (now - l.last_refill)
    then record l {
      tokens =
          min
            (sat_add64 l.tokens
              (sat_mul64 (sat_mul64 (refills (now - l.last_refill)) l.tokens_per_refill) 1000))
            (sat_mul64 l.burst_size 1000);
      last_refill = now;
    }
    else l

-- The loop that takes a token.
pub consume : RateLimiter → Bool × RateLimiter
consume l =
    if ltb l.tokens 1000
    then (false, record l { dropped_count = wrap_add64 l.dropped_count 1 })
    else (true, record l { tokens = l.tokens - 1000; allowed_count = wrap_add64 l.allowed_count 1 })

pub evaluate : RateLimiter → ℕ → Bool × RateLimiter
unfolding consume refill
evaluate l now =
    if l.rate_per_sec == 0
    then (true, record l { allowed_count = wrap_add64 l.allowed_count 1 })
    else consume (refill l now)

pub available_tokens : RateLimiter → ℕ
available_tokens l = l.tokens / 1000

pub record DropLevelPolicy : Type 0 where
  pub minimum : ℕ
  pub allowed : ℕ
  pub dropped : ℕ

pub new_policy : LogLevel → DropLevelPolicy
unfolding as_u8
new_policy min_level = record { minimum = as_u8 min_level; allowed = 0; dropped = 0 }

-- `LogLevel::from_u8(…).unwrap_or(LogLevel::Audit)`.
pub level_or_audit : ℕ → LogLevel
unfolding from_u8
level_or_audit v = elim (from_u8 v) [ none ↦ audit | some l ↦ l ]

pub evaluate_level : DropLevelPolicy → LogLevel → Bool × DropLevelPolicy
unfolding level_or_audit as_u8
evaluate_level p level =
    if leb (as_u8 (level_or_audit p.minimum)) (as_u8 level)
    then (true, record p { allowed = wrap_add64 p.allowed 1 })
    else (false, record p { dropped = wrap_add64 p.dropped 1 })

pub min_level : DropLevelPolicy → LogLevel
unfolding level_or_audit
min_level p = level_or_audit p.minimum

pub set_min_level : DropLevelPolicy → LogLevel → LogLevel × DropLevelPolicy
unfolding level_or_audit as_u8
set_min_level p level = (level_or_audit p.minimum, record p { minimum = as_u8 level })
