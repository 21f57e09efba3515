-- ===== src/Plugin/Quota/Actions.antt =====
-- When a plugin is throttled or terminated.
use do_logger.Plugin.Quota.{
  PluginQuota, cpu_exceeded, evaluate, memory_exceeded, record_cpu_time, reset_violations,
  terminate, terminate_now, throttle, update_memory,
}
use do_logger.Prelude.{
  ℕ, ◌≡◌, ap, ◌↔◌, ◌⊎◌, Bool, true, false, not, ◌||◌, List, [], ◌∷◌, arith, if◌then◌else◌,
}
use do_logger.Prelude.Words.{wrap_add64}

-- What happens to a tracked plugin between two evaluations.
pub data Event : Type 0 where
  memory : ℕ → Event
  cpu : ℕ → ℕ → Event
  evaluation resets commands : Event

module _ (exceeds : ℕ → ℕ → Bool) where
  pub step : PluginQuota → Event → PluginQuota
  step q (memory bytes) = update_memory q bytes
  step q (cpu time now) = record_cpu_time q time now
  step q evaluation = (evaluate exceeds q).1
  step q resets = reset_violations q
  step q commands = terminate_now q

  pub run : PluginQuota → List Event → PluginQuota
  run q [] = q
  run q (e ∷ es) = run (step q e) es

  step-terminated :
      (q : PluginQuota) (e : Event) → q.terminated ≡ true → (step q e).terminated ≡ true
  unfolding step update_memory record_cpu_time evaluate reset_violations terminate_now
  step-terminated q (memory bytes) h = h
  step-terminated q e h = ground arith

  run-terminated :
      (q : PluginQuota) (es : List Event) → q.terminated ≡ true → (run q es).terminated ≡ true
  unfolding run
  run-terminated q [] h = h
  run-terminated q (e ∷ es) h = run-terminated (step q e) es (step-terminated q e h)

  evaluate-terminated :
      (q : PluginQuota) → q.terminated ≡ true → evaluate exceeds q ≡ (terminate, q)
  unfolding evaluate
  evaluate-terminated q h = ground arith

  evaluate-terminate :
      (q : PluginQuota)
      → (evaluate exceeds q).0 ≡ terminate
      → (evaluate exceeds q).1.terminated ≡ true
  unfolding evaluate
  evaluate-terminate q h = ground arith

  -- Once an evaluation terminates a plugin, every later evaluation does, whatever memory and CPU
  -- time are reported in between and whether or not the violations are reset.
  pub terminate_sticks :
      (q : PluginQuota) (es : List Event)
      → (evaluate exceeds q).0 ≡ terminate
      → (evaluate exceeds (run (evaluate exceeds q).1 es)).0 ≡ terminate
  terminate_sticks q es h =
      ap (λ r. r.0)
        (evaluate-terminated (run (evaluate exceeds q).1 es)
          (run-terminated (evaluate exceeds q).1 es (evaluate-terminate q h)))

  -- An evaluation terminates exactly a plugin that was terminated before or whose memory is over
  -- the limit, throttles exactly one that is within its memory and over its CPU quota, and counts
  -- one violation for each such finding but none for a plugin terminated before.
  pub evaluate-QuotaAction :
      (q : PluginQuota)
      → let (action, q') = evaluate exceeds q in
        ((action ≡ terminate) ↔ ((q.terminated ≡ true) ⊎ (memory_exceeded q ≡ true)))
        × ((action ≡ throttle) ↔ (
            (q.terminated ≡ false) × (memory_exceeded q ≡ false) × (cpu_exceeded exceeds q ≡ true)))
        × (q'.violation_count ≡ (
            if q.terminated || not (memory_exceeded q || cpu_exceeded exceeds q)
            then q.violation_count
            else wrap_add64 q.violation_count 1))
  unfolding evaluate
  evaluate-QuotaAction q =
      ((λ h. ground arith, λ h. ground arith), (λ h. ground arith, λ h. ground arith), ground arith)
