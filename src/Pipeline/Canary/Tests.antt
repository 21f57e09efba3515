-- ===== src/Pipeline/Canary/Tests.antt =====
-- Runs and witnesses for the canary.
use do_logger.Prelude.{◌≡◌, List, [], ◌∷◌, arith, map}
use do_logger.Pipeline.Canary.{
  all_health, audit_config, due_probes, probe_failed, probe_ok, skipped,
}
use do_logger.Pipeline.Canary.Health.{
  Event, Watched, due_probes-history, judged_health, prober, reported, restarted, sent, streak,
  which_are_due,
}

abbrev failing : List Event
failing =
    reported probe_ok
    ∷ sent 10
    ∷ reported probe_failed
    ∷ reported skipped
    ∷ reported probe_failed
    ∷ reported probe_failed
    ∷ []

abbrev failing_then_reset : List Event
failing_then_reset = reported probe_failed ∷ reported probe_failed ∷ restarted 40 ∷ []

-- A sink that is dead, one that was reset since, and one on which nothing happened.
abbrev sinks : List Watched
sinks =
    record { name = "kafka"; config = audit_config; start = 0; events = failing }
    ∷ record { name = "syslog"; config = audit_config; start = 0; events = failing_then_reset }
    ∷ record { name = "file"; config = audit_config; start = 55; events = [] }
    ∷ []

due_probes-history_example :
    (due_probes (map prober sinks) 60 ≡ map prober (which_are_due 60 sinks))
    × (all_health (map prober sinks)
        ≡ map (λ h. (h.name, judged_health h.config (streak 0 h.events))) sinks)
unfolding audit_config
due_probes-history_example = due_probes-history 60 sinks (omega arith)
