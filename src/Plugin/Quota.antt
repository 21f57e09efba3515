-- ===== src/Plugin/Quota.antt =====
-- Resource quotas of plugins (core/src/plugin/quota.rs).
-- An `Instant` is a number of microseconds. `exceeds used percent` stands for the comparison in
-- floats of the CPU time used in the window, as a percentage, with the quota.
pub mod Actions
mod Tests
use Prim.Native.String.{String}
use text.Mathlib.Text.{◌==◌ as str_eq}
use do_logger.Prelude.{
  ℕ, ◌-◌, ◌*◌, ◌%◌, Bool, true, false, ◌&&◌, List, [], ◌∷◌, ◌++◌, ltb, leb, if◌then◌else◌,
}
use do_logger.Prelude.Words.{u64_mod, wrap_add64}

pub record QuotaConfig : Type 0 where
  pub plugin_name : String
  pub memory_limit_mb : ℕ
  pub cpu_quota_percent : ℕ
  pub terminate_on_memory : Bool

pub default_config : QuotaConfig
default_config = record {
  plugin_name = "unknown";
  memory_limit_mb = 100;
  cpu_quota_percent = 200;
  terminate_on_memory = true;
}

pub record CpuWindow : Type 0 where
  pub used_us : ℕ
  pub window_start : ℕ
  pub window_duration : ℕ

pub new_window : ℕ → CpuWindow
new_window now = record { used_us = 0; window_start = now; window_duration = 10_000_000 }

-- `CpuWindow::record`, with the total that it returns.
pub record_window : CpuWindow → ℕ → ℕ → ℕ × CpuWindow
record_window w cpu_time_us now =
    let w' : CpuWindow =
      if leb w.window_duration (now - w.window_start)
      then record w { window_start = now; used_us = 0 }
      else w in
    (wrap_add64 w'.used_us cpu_time_us, record w' { used_us = wrap_add64 w'.used_us cpu_time_us })

pub data QuotaAction : Type 0 where
  allow throttle terminate : QuotaAction

pub record PluginQuota : Type 0 where
  pub config : QuotaConfig
  pub memory_bytes : ℕ
  pub cpu_window : CpuWindow
  pub terminated : Bool
  pub violation_count : ℕ

pub new : QuotaConfig → ℕ → PluginQuota
unfolding new_window
new config now = record {
  config = config;
  memory_bytes = 0;
  cpu_window = new_window now;
  terminated = false;
  violation_count = 0;
}

pub update_memory : PluginQuota → ℕ → PluginQuota
update_memory q bytes = record q { memory_bytes = bytes }

pub record_cpu_time : PluginQuota → ℕ → ℕ → PluginQuota
unfolding record_window
record_cpu_time q cpu_time_us now = record q {
  cpu_window = (record_window q.cpu_window cpu_time_us now).1;
}

-- The limit in bytes; the product wraps.
pub mem_limit : QuotaConfig → ℕ
mem_limit c = c.memory_limit_mb * 1024 * 1024 % u64_mod

-- The memory check of `evaluate`.
pub memory_exceeded : PluginQuota → Bool
unfolding mem_limit
memory_exceeded q =
    ltb 0 q.config.memory_limit_mb
    && (ltb (mem_limit q.config) q.memory_bytes && q.config.terminate_on_memory)

pub reset_violations : PluginQuota → PluginQuota
reset_violations q = record q { violation_count = 0 }

-- `terminate`, on an administrator's command.
pub terminate_now : PluginQuota → PluginQuota
terminate_now q = record q { terminated = true }

module _ (exceeds : ℕ → ℕ → Bool) where
  pub cpu_exceeded : PluginQuota → Bool
  cpu_exceeded q =
      ltb 0 q.config.cpu_quota_percent && exceeds q.cpu_window.used_us q.config.cpu_quota_percent

  pub evaluate : PluginQuota → QuotaAction × PluginQuota
  unfolding memory_exceeded cpu_exceeded
  evaluate q =
      if q.terminated
      then (terminate, q)
      else if memory_exceeded q
      then (
        terminate,
        record q { terminated = true; violation_count = wrap_add64 q.violation_count 1 },
      )
      else if cpu_exceeded q
      then (throttle, record q { violation_count = wrap_add64 q.violation_count 1 })
      else (allow, q)

  -- The loop of `QuotaManager::evaluate_all`: the names throttled, those terminated, the trackers.
  pub evaluate_all : List PluginQuota → List String × List String × List PluginQuota
  unfolding evaluate
  evaluate_all [] = ([], [], [])
  evaluate_all (q ∷ qs) =
      let (action, q') = evaluate q in
      let (throttled, terminated, rest) = evaluate_all qs in
      elim action [
        | allow ↦ (throttled, terminated, q' ∷ rest)
        | throttle ↦ (q.config.plugin_name ∷ throttled, terminated, q' ∷ rest)
        | terminate ↦ (throttled, q.config.plugin_name ∷ terminated, q' ∷ rest)
      ]

pub register : List PluginQuota → QuotaConfig → ℕ → List PluginQuota
unfolding new
register qs config now = qs ++ (new config now ∷ [])

pub unregister : List PluginQuota → String → List PluginQuota
unregister [] name = []
unregister (q ∷ qs) name =
    let rest = unregister qs name in if str_eq q.config.plugin_name name then rest else q ∷ rest
