-- ===== src/Pipeline/Backpressure.antt =====
-- Backpressure (core/src/pipeline/backpressure.rs).
-- A fill ratio is a float; of it the code reads the three values of `FillRatio`. An `Instant` is a
-- number of nanoseconds.
pub mod Drops
mod Tests
use do_logger.Record.Level.{LogLevel, as_u8, error, warn}
use do_logger.Prelude.{
  ℕ, ◌-◌, Bool, true, false, not, ◌&&◌, Option, none, some, ltb, leb, ◌==◌, if◌then◌else◌, Result,
  ok, err,
}
use do_logger.Prelude.Words.{wrap_add64}

pub data DropStrategy : Type 0 where
  newest oldest below_warn below_error never : DropStrategy

pub data PerformanceProfile : Type 0 where
  dev prod_performance prod_audit balanced : PerformanceProfile

pub record BackpressureConfig : Type 0 where
  pub block_timeout_ms : ℕ
  pub drop_strategy : DropStrategy
  pub is_audit_domain : Bool

pub profile_timeout : PerformanceProfile → ℕ × DropStrategy
profile_timeout dev = (100, newest)
profile_timeout prod_performance = (3000, below_warn)
profile_timeout prod_audit = (3000, below_warn)
profile_timeout balanced = (2000, oldest)

pub for_profile : PerformanceProfile → Bool → BackpressureConfig
unfolding profile_timeout
for_profile profile is_audit =
    let (timeout, strategy) = profile_timeout profile in
    if is_audit
    then record { block_timeout_ms = 0; drop_strategy = never; is_audit_domain = true }
    else record { block_timeout_ms = timeout; drop_strategy = strategy; is_audit_domain = false }

pub is_never : DropStrategy → Bool
is_never s = elim s [ never ↦ true | _ ↦ false ]

-- The three messages of `validate`.
pub data ConfigError : Type 0 where
  timeout_too_short audit_timeout : ℕ → ConfigError
  audit_strategy : ConfigError

pub validate : BackpressureConfig → Result ConfigError BackpressureConfig
unfolding is_never
validate c =
    if not c.is_audit_domain && (ltb 0 c.block_timeout_ms && ltb c.block_timeout_ms 100)
    then err (timeout_too_short c.block_timeout_ms)
    else if c.is_audit_domain && not (c.block_timeout_ms == 0)
    then err (audit_timeout c.block_timeout_ms)
    else if c.is_audit_domain && not (is_never c.drop_strategy)
    then err audit_strategy
    else ok c

-- What `evaluate` reads of a fill ratio: `(ratio * 1000.0) as u64`, `ratio < 0.90`, `ratio < 0.95`.
pub record FillRatio : Type 0 where
  pub permille : ℕ
  pub below_90 : Bool
  pub below_95 : Bool

pub record BackpressureController : Type 0 where
  pub config : BackpressureConfig
  pub blocked_count : ℕ
  pub dropped_count : ℕ
  pub accepted_count : ℕ
  pub emergency_active : Bool
  pub emergency_since : Option ℕ
  pub fill_level : ℕ

pub new : BackpressureConfig → BackpressureController
new config = record {
  config = config;
  blocked_count = 0;
  dropped_count = 0;
  accepted_count = 0;
  emergency_active = false;
  emergency_since = none;
  fill_level = 0;
}

-- `should_drop`, from 95% on.
pub should_drop : DropStrategy → LogLevel → Bool
unfolding as_u8
should_drop never level = false
should_drop newest level = true
should_drop oldest level = false
should_drop below_warn level = ltb (as_u8 level) (as_u8 warn)
should_drop below_error level = ltb (as_u8 level) (as_u8 error)

abbrev accept : BackpressureController → BackpressureController
accept c = record c { accepted_count = wrap_add64 c.accepted_count 1 }

abbrev accept_blocked : BackpressureController → BackpressureController
accept_blocked c = record c {
  blocked_count = wrap_add64 c.blocked_count 1;
  accepted_count = wrap_add64 c.accepted_count 1;
}

abbrev drop_record : BackpressureController → BackpressureController
drop_record c = record c { dropped_count = wrap_add64 c.dropped_count 1 }

pub evaluate : BackpressureController → FillRatio → LogLevel → Bool × BackpressureController
unfolding should_drop
evaluate c ratio level =
    let c' : BackpressureController = record c { fill_level = ratio.permille } in
    if ratio.below_90
    then (true, accept c')
    else if c.config.is_audit_domain
    then (true, accept_blocked c')
    else if ratio.below_95
    then (true, accept_blocked c')
    else if should_drop c.config.drop_strategy level
    then (false, drop_record c')
    else (true, accept_blocked c')

-- `Duration::from_secs(5)`.
abbrev pub emergency_after : ℕ
emergency_after = 5_000_000_000

-- The branch of `check_emergency` above 95%, with no emergency active.
pub arm_emergency : BackpressureController → Option ℕ → ℕ → Bool × BackpressureController
arm_emergency c none now = (false, record c { emergency_since = some now })
arm_emergency c (some since) now =
    if ltb emergency_after (now - since)
    then (true, record c { emergency_active = true })
    else (false, c)

pub check_emergency : BackpressureController → ℕ → Bool × BackpressureController
unfolding arm_emergency
check_emergency c now =
    if ltb 950 c.fill_level
    then if not c.emergency_active then arm_emergency c c.emergency_since now else (true, c)
    else if c.emergency_active && ltb c.fill_level 500
    then (c.emergency_active, record c { emergency_active = false; emergency_since = none })
    else if ltb c.fill_level 950
    then (c.emergency_active, record c { emergency_since = none })
    else (c.emergency_active, c)

-- `none` is `Duration::MAX`.
pub block_timeout : BackpressureController → Option ℕ
block_timeout c = if c.config.block_timeout_ms == 0 then none else some c.config.block_timeout_ms

pub drops_allowed : BackpressureController → Bool
unfolding is_never
drops_allowed c = not (is_never c.config.drop_strategy)

pub should_help : BackpressureController → Bool
should_help c = leb 900 c.fill_level
