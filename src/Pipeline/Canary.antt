-- ===== src/Pipeline/Canary.antt =====
-- Canary probing of sinks (core/src/pipeline/canary.rs).
-- An `Instant` is a number of seconds. A prober is shared by reference in the source: here an
-- operation through the manager's list replaces it there.
pub mod Health
mod Tests
use Prim.Native.String.{String}
use text.Mathlib.Text.{◌==◌ as str_eq}
use do_logger.Prelude.{
  ℕ, ◌-◌, Bool, true, false, ◌&&◌, ◌||◌, List, [], ◌∷◌, ◌++◌, map, ltb, leb, ◌==◌, if◌then◌else◌,
  Result, ok, err,
}
use do_logger.Prelude.Words.{wrap_add64}

pub data CanaryResult : Type 0 where
  probe_ok probe_failed skipped : CanaryResult

pub data SinkHealth : Type 0 where
  healthy degraded dead : SinkHealth

pub record CanaryConfig : Type 0 where
  pub interval_secs : ℕ
  pub failure_threshold : ℕ
  pub is_audit : Bool

pub audit_config : CanaryConfig
audit_config = record { interval_secs = 10; failure_threshold = 3; is_audit = true }

pub data ConfigError : Type 0 where
  interval_zero threshold_zero : ConfigError
  audit_interval : ℕ → ConfigError

pub validate : CanaryConfig → Result ConfigError CanaryConfig
validate c =
    if c.interval_secs == 0
    then err interval_zero
    else if c.is_audit && ltb 10 c.interval_secs
    then err (audit_interval c.interval_secs)
    else if c.failure_threshold == 0
    then err threshold_zero
    else ok c

pub record CanaryProber : Type 0 where
  pub config : CanaryConfig
  pub last_probe : ℕ
  pub total_probes : ℕ
  pub successful : ℕ
  pub failed : ℕ
  pub consecutive_failures : ℕ
  pub is_dead : Bool
  pub sink_name : String

pub new : String → CanaryConfig → ℕ → CanaryProber
new sink_name config now = record {
  config = config;
  last_probe = now;
  total_probes = 0;
  successful = 0;
  failed = 0;
  consecutive_failures = 0;
  is_dead = false;
  sink_name = sink_name;
}

pub should_probe : CanaryProber → ℕ → Bool
should_probe p now = if p.is_dead then false else leb p.config.interval_secs (now - p.last_probe)

pub mark_probe_sent : CanaryProber → ℕ → CanaryProber
mark_probe_sent p now = record p { last_probe = now; total_probes = wrap_add64 p.total_probes 1 }

pub health : CanaryProber → SinkHealth
health p = if p.is_dead then dead else if ltb 0 p.consecutive_failures then degraded else healthy

pub report_result : CanaryProber → CanaryResult → SinkHealth × CanaryProber
unfolding health
report_result p probe_ok = (
  healthy,
  record p {
    successful = wrap_add64 p.successful 1;
    consecutive_failures = 0;
    is_dead = if p.is_dead then false else p.is_dead;
  },
)
report_result p probe_failed =
    let p' : CanaryProber = record p {
      failed = wrap_add64 p.failed 1;
      consecutive_failures = wrap_add64 p.consecutive_failures 1;
    } in
    if leb p.config.failure_threshold (wrap_add64 p.consecutive_failures 1)
    then (dead, record p' { is_dead = true })
    else (degraded, p')
report_result p skipped = (health p, p)

pub reset : CanaryProber → ℕ → CanaryProber
reset p now = record p { consecutive_failures = 0; is_dead = false; last_probe = now }

-- The probers of a `CanaryManager`.
abbrev pub CanaryManager : Type 0
CanaryManager = List CanaryProber

pub register : CanaryManager → CanaryProber → CanaryManager
register m p = m ++ (p ∷ [])

pub unregister : CanaryManager → String → CanaryManager
unregister [] name = []
unregister (p ∷ m) name =
    let rest = unregister m name in if str_eq p.sink_name name then rest else p ∷ rest

pub due_probes : CanaryManager → ℕ → List CanaryProber
unfolding should_probe
due_probes [] now = []
due_probes (p ∷ m) now =
    let rest = due_probes m now in if should_probe p now then p ∷ rest else rest

pub all_health : CanaryManager → List (String × SinkHealth)
unfolding health
all_health m = map (λ p. (p.sink_name, health p)) m

pub any_dead : CanaryManager → Bool
unfolding health
any_dead [] = false
any_dead (p ∷ m) = (elim (health p) [ dead ↦ true | _ ↦ false ]) || any_dead m
