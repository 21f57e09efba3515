-- ===== src/Pipeline/Canary/Health.antt =====
-- When a sink counts as dead and when it is due, over whatever happens to its prober.
use Prim.Native.String.{String}
use do_logger.Pipeline.Canary.{
  CanaryProber, CanaryConfig, CanaryResult, dead, degraded, health, healthy, new, probe_failed,
  probe_ok, report_result, skipped, SinkHealth, all_health, due_probes, should_probe,
  mark_probe_sent, reset,
}
use do_logger.Prelude.{
  ℕ, suc, ◌+◌, ◌-◌, ◌≤◌, ◌<◌, ◌≡◌, refl, List, [], ◌∷◌, arith, ltb, leb, if◌then◌else◌, length, ap,
  ap₂, Bool, not, ◌&&◌, map, inl, inr, Bool-cases,
}
use do_logger.Prelude.Words.{u64_max}

-- What happens to a prober: a probe is sent, a result comes in, or it is reset.
pub data Event : Type 0 where
  sent : ℕ → Event
  reported : CanaryResult → Event
  restarted : ℕ → Event

pub happen : CanaryProber → Event → CanaryProber
unfolding mark_probe_sent report_result reset
happen p (sent now) = mark_probe_sent p now
happen p (reported r) = (report_result p r).1
happen p (restarted now) = reset p now

pub history : CanaryProber → List Event → CanaryProber
history p [] = p
history p (e ∷ es) = history (happen p e) es

-- The failures since the last success or reset, on top of `n` before it.
pub streak : ℕ → List Event → ℕ
streak n [] = n
streak n (reported probe_ok ∷ es) = streak 0 es
streak n (reported probe_failed ∷ es) = streak (suc n) es
streak n (reported skipped ∷ es) = streak n es
streak n (sent now ∷ es) = streak n es
streak n (restarted now ∷ es) = streak 0 es

-- The time of the last probe or reset, after `t`.
pub touched : ℕ → List Event → ℕ
touched t [] = t
touched t (reported r ∷ es) = touched t es
touched t (sent now ∷ es) = touched now es
touched t (restarted now ∷ es) = touched now es

-- A prober knows its failures in a row and its last probe, and is dead exactly if the failures have
-- reached the threshold.
pub record Tracks (c : CanaryConfig) (name : String) (n t : ℕ) (p : CanaryProber) : Type 0 where
  pub configured : p.config ≡ c
  pub named : p.sink_name ≡ name
  pub counted : p.consecutive_failures ≡ n
  pub judged : p.is_dead ≡ leb c.failure_threshold n
  pub timed : p.last_probe ≡ t

module _ (c : CanaryConfig) (name : String) (positive : 0 < c.failure_threshold) where
  happen-Tracks :
      (p : CanaryProber) (n t : ℕ) (e : Event)
      → Tracks c name n t p
      → n + 1 < u64_max
      → Tracks c name (streak n (e ∷ [])) (touched t (e ∷ [])) (happen p e)
  unfolding happen streak touched
  happen-Tracks p n t (reported probe_ok) v h = ground arith
  happen-Tracks p n t (reported probe_failed) v h = ground arith
  happen-Tracks p n t (reported skipped) v h = v
  happen-Tracks p n t (sent now) v h = ground arith
  happen-Tracks p n t (restarted now) v h = ground arith

  step_on :
      (n t : ℕ) (e : Event) (es : List Event)
      → (streak n (e ∷ es) ≡ streak (streak n (e ∷ [])) es)
        × (touched t (e ∷ es) ≡ touched (touched t (e ∷ [])) es)
        × (streak n (e ∷ []) ≤ suc n)
  unfolding streak touched
  step_on n t (reported probe_ok) es = (refl, refl, omega arith)
  step_on n t (reported r) es = (refl, refl, omega arith)
  step_on n t e es = (refl, refl, omega arith)

  history-Tracks :
      (p : CanaryProber) (n t : ℕ) (es : List Event)
      → Tracks c name n t p
      → n + length es < u64_max
      → Tracks c name (streak n es) (touched t es) (history p es)
  unfolding history streak touched
  history-Tracks p n t [] v h = v
  history-Tracks p n t (e ∷ es) v h =
      let (f, g, k) = step_on n t e es in
      rw (f, g)
        (history-Tracks (happen p e) (streak n (e ∷ [])) (touched t (e ∷ [])) es
          (happen-Tracks p n t e v (omega arith)) (omega (arith, k)))

  new-Tracks : (start : ℕ) → Tracks c name 0 start (new name c start)
  unfolding new
  new-Tracks start = ground arith

-- The health that a number of failures in a row stands for.
pub judged_health : CanaryConfig → ℕ → SinkHealth
judged_health c n =
    if leb c.failure_threshold n then dead else if ltb 0 n then degraded else healthy

-- A registered sink: how its prober was made, and what happened to it since.
pub record Watched : Type 0 where
  pub name : String
  pub config : CanaryConfig
  pub start : ℕ
  pub events : List Event

pub prober : Watched → CanaryProber
prober h = history (new h.name h.config h.start) h.events

-- Alive by its failures in a row, and the interval has passed since its last probe or reset.
pub is_due : ℕ → Watched → Bool
is_due now h =
    not (leb h.config.failure_threshold (streak 0 h.events))
    && leb h.config.interval_secs (now - touched h.start h.events)

pub which_are_due : ℕ → List Watched → List Watched
which_are_due now [] = []
which_are_due now (h ∷ hs) =
    let rest = which_are_due now hs in if is_due now h then h ∷ rest else rest

-- The threshold is positive, and the counters do not wrap.
abbrev pub AllSane : List Watched → Type 0
AllSane [] = Unit {0}
AllSane (h ∷ hs) = ((0 < h.config.failure_threshold) × (length h.events < u64_max)) × AllSane hs

prober-Tracks :
    (h : Watched)
    → 0 < h.config.failure_threshold
    → length h.events < u64_max
    → Tracks h.config h.name (streak 0 h.events) (touched h.start h.events) (prober h)
unfolding prober
prober-Tracks h p k =
    history-Tracks h.config h.name p (new h.name h.config h.start) 0 h.start h.events
      (new-Tracks h.config h.name p h.start) (omega arith)

should_probe-Tracks :
    (now : ℕ) (h : Watched) (p : CanaryProber)
    → Tracks h.config h.name (streak 0 h.events) (touched h.start h.events) p
    → should_probe p now ≡ is_due now h
unfolding should_probe is_due
should_probe-Tracks now h p v = ground arith

health-Tracks :
    (c : CanaryConfig) (name : String) (n t : ℕ) (p : CanaryProber)
    → 0 < c.failure_threshold
    → Tracks c name n t p
    → (p.sink_name ≡ name) × (health p ≡ judged_health c n)
unfolding health judged_health
health-Tracks c name n t p h v = ground arith

due-which :
    (now : ℕ) (hs : List Watched)
    → AllSane hs
    → due_probes (map prober hs) now ≡ map prober (which_are_due now hs)
unfolding due_probes which_are_due
due-which now [] s = refl
due-which now (h ∷ hs) s =
    let e = should_probe-Tracks now h (prober h) (prober-Tracks h s.0.0 s.0.1) in
    elim (Bool-cases (is_due now h)) [
      | inl d ↦ rw (e, d) (ap (λ l. prober h ∷ l) (due-which now hs s.1))
      | inr d ↦ rw (e, d) (due-which now hs s.1)
    ]

health-which :
    (hs : List Watched)
    → AllSane hs
    → all_health (map prober hs)
      ≡ map (λ h. (h.name, judged_health h.config (streak 0 h.events))) hs
unfolding all_health
health-which [] s = refl
health-which (h ∷ hs) s =
    let (named, judged) =
      health-Tracks h.config h.name (streak 0 h.events) (touched h.start h.events) (prober h) s.0.0
        (prober-Tracks h s.0.0 s.0.1) in
    ap₂ (λ x l. x ∷ l) (ap₂ (λ (a : String) (b : SinkHealth). (a, b)) named judged)
      (health-which hs s.1)

-- Whatever was sent, reported and reset for the probers of a manager, call by call and fewer times
-- than a counter holds, with positive thresholds: the due probers are, in order, exactly those
-- whose failures since their last success or reset are fewer than their threshold and whose
-- interval has passed since they were made or last probed or reset. The health of each sink is dead
-- if those failures reach the threshold, degraded if there are fewer but some, and else healthy.
pub due_probes-history :
    (now : ℕ) (hs : List Watched)
    → AllSane hs
    → (due_probes (map prober hs) now ≡ map prober (which_are_due now hs))
      × (all_health (map prober hs)
          ≡ map (λ h. (h.name, judged_health h.config (streak 0 h.events))) hs)
due_probes-history now hs s = (due-which now hs s, health-which hs s)
