-- ===== src/Buffer/RingBuffer/Schedule.antt =====
-- Worlds by evaluation: the calls and steps of the threads in a given order.
use do_logger.Prelude.{
  ℕ, zero, suc, ◌≡◌, refl, inl, inr, Bool, true, false, List, [], ◌∷◌, if◌then◌else◌, Bool-cases,
}
use do_logger.Buffer.RingBuffer.{
  Call, Pc, Reach, World, apply, begin, drain_check, drain_claim, drain_producer, drain_release,
  drain_start, drain_take, drain_wait, enter, fresh, idle, later, len_producer, len_start,
  push_claim, push_producer, push_publish, push_start, push_wait, push_write, step, tick, update,
}

pub data Act (A : Type 0) : Type 0 where
  invoke : (t : ℕ) → Call A → Act A
  advance : (t rounds : ℕ) → Act A

module _ {A : Type 0} where
  abbrev is_idle : Pc A → Bool
  is_idle idle = true
  is_idle (push_start x) = false
  is_idle (push_producer x c) = false
  is_idle (push_claim x p) = false
  is_idle (push_wait x p) = false
  is_idle (push_write x p) = false
  is_idle (push_publish p) = false
  is_idle (drain_start b l) = false
  is_idle (drain_producer b l c) = false
  is_idle (drain_wait b l c) = false
  is_idle (drain_check l c) = false
  is_idle (drain_claim b l c) = false
  is_idle (drain_take b l c) = false
  is_idle (drain_release b l c) = false
  is_idle len_start = false
  is_idle (len_producer c) = false

  is_idle_lem : (pc : Pc A) → is_idle pc ≡ true → pc ≡ idle
  is_idle_lem idle e = refl
  is_idle_lem (push_start x) e = cc
  is_idle_lem (push_producer x c) e = cc
  is_idle_lem (push_claim x p) e = cc
  is_idle_lem (push_wait x p) e = cc
  is_idle_lem (push_write x p) e = cc
  is_idle_lem (push_publish p) e = cc
  is_idle_lem (drain_start b l) e = cc
  is_idle_lem (drain_producer b l c) e = cc
  is_idle_lem (drain_wait b l c) e = cc
  is_idle_lem (drain_check l c) e = cc
  is_idle_lem (drain_claim b l c) e = cc
  is_idle_lem (drain_take b l c) e = cc
  is_idle_lem (drain_release b l c) e = cc
  is_idle_lem len_start e = cc
  is_idle_lem (len_producer c) e = cc

  ticks : ℕ → ℕ → World A → World A
  unfolding step
  ticks zero t w = w
  ticks (suc n) t w = ticks n t (apply w t (step false w.ring (w.pcs t)))

  -- A call by a thread that is busy is left out.
  pub enact : World A → Act A → World A
  unfolding ticks enter
  enact w (invoke t call) =
      if is_idle (w.pcs t) then record w { pcs = update w.pcs t (enter call) } else w
  enact w (advance t n) = ticks n t w

  unfoldable pub play : World A → List (Act A) → World A
  unfolding enact
  play w [] = w
  play w (a ∷ rest) = play (enact w a) rest

  ticks-Reach : {cap : ℕ} (n t : ℕ) (w : World A) → Reach cap w → Reach cap (ticks n t w)
  unfolding ticks
  ticks-Reach zero t w r = r
  ticks-Reach (suc n) t w r =
      ticks-Reach n t (apply w t (step false w.ring (w.pcs t)))
        (later {w = apply w t (step false w.ring (w.pcs t))} r (tick t false))

  enact-Reach : {cap : ℕ} (w : World A) (a : Act A) → Reach cap w → Reach cap (enact w a)
  unfolding enact
  enact-Reach w (invoke t call) r = elim (Bool-cases (is_idle (w.pcs t))) [
    | inl e ↦ rw e (later r (begin t call (is_idle_lem (w.pcs t) e)))
    | inr e ↦ rw e r
  ]
  enact-Reach w (advance t n) r = ticks-Reach n t w r

  pub play-Reach :
      {cap : ℕ} (w : World A) (rest : List (Act A)) → Reach cap w → Reach cap (play w rest)
  unfolding play
  play-Reach w [] r = r
  play-Reach w (a ∷ rest) r = play-Reach (enact w a) rest (enact-Reach w a r)

  abbrev pub initial : ℕ → World A
  initial cap = record { ring = fresh cap; pcs = λ _. idle; log = [] }
