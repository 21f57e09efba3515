-- ===== src/Plugin/Quota/Tests.antt =====
-- Runs and witnesses for quotas.
use do_logger.Plugin.Quota.{PluginQuota, evaluate, memory_exceeded, terminate}
use do_logger.Plugin.Quota.Actions.{run, evaluate-QuotaAction, memory, resets, terminate_sticks}
use do_logger.Prelude.{ℕ, ◌*◌, ◌≡◌, refl, ◌↔◌, ◌⊎◌, Bool, true, false, [], ◌∷◌, ltb}

-- The share of a window of ten seconds, in whole numbers.
abbrev over_percent : ℕ → ℕ → Bool
over_percent used percent = ltb (percent * 100_000) used

-- Over its limit of one megabyte.
abbrev heavy : PluginQuota
heavy = record {
  config = record {
    plugin_name = "geo";
    memory_limit_mb = 1;
    cpu_quota_percent = 200;
    terminate_on_memory = true;
  };
  memory_bytes = 2_000_000;
  cpu_window = record { used_us = 0; window_start = 0; window_duration = 10_000_000 };
  terminated = false;
  violation_count = 0;
}

terminate_sticks_example :
    (evaluate over_percent
      (run over_percent (evaluate over_percent heavy).1 (memory 0 ∷ resets ∷ []))).0
    ≡ terminate
unfolding evaluate
terminate_sticks_example = terminate_sticks over_percent heavy (memory 0 ∷ resets ∷ []) refl

heavy_use :
    ((evaluate over_percent heavy).0 ≡ terminate)
    ↔ ((heavy.terminated ≡ true) ⊎ (memory_exceeded heavy ≡ true))
heavy_use = (evaluate-QuotaAction over_percent heavy).0
