-- ===== src/Buffer/RingBuffer/Invariant/Moves.antt =====
-- Every step of every thread keeps the invariant, so every reachable world has it.
use native.Mathlib.Nat.{mod-le}
use do_logger.Prelude.{
  ℕ, ◌-◌, ◌≡◌, refl, sym, ap, inl, inr, Bool, false, not, ◌&&◌, arith, leb, ◌==◌, ==_iff,
  Bool-cases, ◌+◌, ◌≤◌, ◌∙◌, true, none, List, [], if◌then◌else◌, subst, some,
}
use do_logger.Buffer.RingBuffer.{
  Pc, World, apply, drain_check, drain_claim, drain_producer, drain_release, drain_start,
  drain_take, drain_wait, idle, len_producer, len_start, measure, push_claim, push_producer,
  push_publish, push_start, push_wait, push_write, refuse, slot, step, Call, Event, Move, Reach,
  RingBuffer, begin, drain, drain_helping, enter, fresh, goto, later, new, retry, start, tick,
  try_push,
}
use do_logger.Buffer.RingBuffer.Invariant.{Inv, Stage, hold, KnowsAt, vacant}
use do_logger.Buffer.RingBuffer.Invariant.Slots.{Fits-published}
use do_logger.Buffer.RingBuffer.Invariant.Carry.{note-Inv, stay-Inv}
use do_logger.Buffer.RingBuffer.Invariant.Steps.{
  claim-Inv, go-Inv, mine, ready-Inv, write-Inv, publish-Inv, two,
}
use do_logger.Buffer.RingBuffer.Invariant.Takes.{pass-Inv, release-Inv, take-Inv}

module _ {A : Type 0} where
  -- A world in order, at some stages.
  abbrev pub Ordered : ℕ → World A → Type 0
  Ordered cap w = (stage : ℕ → Stage) × Inv cap w stage

  module _ {cap : ℕ} {w : World A} {stage : ℕ → Stage} (inv : Inv cap w stage) (t : ℕ) where
    open inv use {room, order, bound, fits, knows, counted}

    abbrev Next : Bool → Pc A → Type 0
    Next weak pc = Ordered cap (apply w t (step weak w.ring pc))

    -- Here `drain` and `drain_helping` part.
    retry-Ordered :
        (b : Bool) (left c : ℕ)
        → w.pcs t ≡ drain_claim b left c
        → Ordered cap (apply w t (goto w.ring (retry b left)))
    retry-Ordered true left c at = (stage, go-Inv inv t _ at idle refl tt)
    retry-Ordered false left c at = (stage, go-Inv inv t _ at (drain_start false left) refl tt)

    wait-Ordered :
        (b : Bool) (left c : ℕ)
        → w.pcs t ≡ drain_wait b left c
        → Ordered cap (apply w t (goto w.ring (if b then idle else drain_check left c)))
    wait-Ordered true left c at = (stage, go-Inv inv t _ at idle refl tt)
    wait-Ordered false left c at =
        (stage, go-Inv inv t _ at (drain_check left c) refl (mine inv t _ at))

    step-Ordered : (weak : Bool) (pc : Pc A) → w.pcs t ≡ pc → Next weak pc
    unfolding step
    step-Ordered weak idle at = (stage, go-Inv inv t idle at idle refl tt)
    step-Ordered weak (push_start x) at =
        (stage, go-Inv inv t _ at (push_producer x w.ring.consumer_sequence) refl (omega arith))
    step-Ordered weak (push_producer x c) at =
        elim (Bool-cases (leb w.ring.capacity (w.ring.producer_sequence - c))) [
          | inl e ↦ rw e (
            stage,
            note-Inv (stay-Inv inv t idle (ap (hold t) (sym at)) tt) t (refuse x) (λ p. refl) refl
                (λ p. refl) tt,
          )
          | inr e ↦ rw e (
            stage,
            go-Inv inv t _ at (push_claim x w.ring.producer_sequence) refl
                (ground (arith, mine inv t _ at)),
          )
        ]
    step-Ordered weak (push_claim x p) at =
        elim (Bool-cases (w.ring.producer_sequence == p && not weak)) [
          | inl e ↦ rw e (_, claim-Inv inv t x p at (ground arith))
          | inr e ↦ rw e (stage, go-Inv inv t _ at (push_start x) refl tt)
        ]
    step-Ordered weak (push_wait x p) at = elim (Bool-cases ((slot w.ring p).sequence == p)) [
      | inl e ↦ rw e (_, ready-Inv inv t x p at ((==_iff _ _).0 e))
      | inr e ↦ rw e (stage, go-Inv inv t _ at (push_wait x p) refl (mine inv t _ at))
    ]
    step-Ordered weak (push_write x p) at = (_, write-Inv inv t x p at)
    step-Ordered weak (push_publish p) at = (_, publish-Inv inv t p at)
    step-Ordered weak (drain_start b left) at = elim (Bool-cases (left == 0)) [
      | inl e ↦ rw e (stage, go-Inv inv t _ at idle refl tt)
      | inr e ↦ rw e (
        stage,
        go-Inv inv t _ at (drain_producer b left w.ring.consumer_sequence) refl (omega arith),
      )
    ]
    step-Ordered weak (drain_producer b left c) at =
        elim (Bool-cases (leb w.ring.producer_sequence c)) [
          | inl e ↦ rw e (stage, go-Inv inv t _ at idle refl tt)
          | inr e ↦ rw e (stage, go-Inv inv t _ at (drain_wait b left c) refl (ground arith))
        ]
    step-Ordered weak (drain_wait b left c) at =
        elim (Bool-cases ((slot w.ring c).sequence == c + 1)) [
          | inl e ↦ rw e (
            stage,
            go-Inv inv t _ at (drain_claim b left c) refl (λ le.
                Fits-published _ _ _ _ c c (slot w.ring c).sequence _ (stage c) (two inv t)
                  ((==_iff _ _).0 e) le (fits c)),
          )
          | inr e ↦ rw e (wait-Ordered b left c at)
        ]
    step-Ordered weak (drain_check left c) at = elim (Bool-cases (w.ring.consumer_sequence == c)) [
      | inl e ↦ rw e (stage, go-Inv inv t _ at (drain_wait false left c) refl (mine inv t _ at))
      | inr e ↦ rw e (stage, go-Inv inv t _ at (drain_start false left) refl tt)
    ]
    step-Ordered weak (drain_claim b left c) at =
        elim (Bool-cases (w.ring.consumer_sequence == c && not weak)) [
          | inl e ↦ rw e (_, pass-Inv inv t b left c at (ground arith))
          | inr e ↦ rw e (retry-Ordered b left c at)
        ]
    step-Ordered weak (drain_take b left c) at = (_, take-Inv inv t b left c at _ refl)
    step-Ordered weak (drain_release b left c) at = (_, release-Inv inv t b left c at)
    step-Ordered weak len_start at =
        (stage, go-Inv inv t _ at (len_producer w.ring.consumer_sequence) refl (omega arith))
    step-Ordered weak (len_producer c) at = (
      stage,
      note-Inv (stay-Inv inv t idle (ap (hold t) (sym at)) tt) t
          (measure (w.ring.producer_sequence - c)) (λ p. refl) refl (λ p. refl) (omega arith),
    )

  enter-hold : (t : ℕ) (call : Call A) → hold t (enter call) ≡ none
  unfolding enter
  enter-hold t (try_push x) = refl
  enter-hold t (drain n) = refl
  enter-hold t (drain_helping n) = refl
  enter-hold t Call.len = refl

  enter-Knows :
      (r : RingBuffer A) (l : List (Event A)) (stage : ℕ → Stage) (call : Call A)
      → KnowsAt r l stage (enter call)
  unfolding enter
  enter-Knows r l stage (try_push x) = tt
  enter-Knows r l stage (drain n) = tt
  enter-Knows r l stage (drain_helping n) = tt
  enter-Knows r l stage Call.len = tt

  pub Move-Ordered : {cap : ℕ} {v w : World A} → Ordered cap v → Move v w → Ordered cap w
  Move-Ordered {v = v} (stage, inv) (begin t call at) = (
    stage,
    stay-Inv inv t (enter call) (enter-hold t call ∙ ap (hold t) (sym at))
        (enter-Knows v.ring v.log stage call),
  )
  Move-Ordered {v = v} (stage, inv) (tick t weak) = step-Ordered inv t weak (v.pcs t) refl

  start-Inv :
      (cap : ℕ)
      → 2 ≤ cap
      → Inv {A = A} cap (record { ring = fresh cap; pcs = λ _. idle; log = [] }) (λ _. vacant)
  start-Inv cap two = record {
    room = (refl, two);
    order = omega arith;
    bound = omega arith;
    fits = λ q. (omega arith, mod-le q cap, refl);
    holds = λ t q s e. cc;
    held = λ t q e. cc;
    knows = λ t. tt;
    counted = refl;
    delivered = λ q. refl;
    sound = tt;
  }

  pub new-eq : (cap : ℕ) (r : RingBuffer A) → new cap ≡ some r → fresh cap ≡ r
  unfolding new
  new-eq cap r e = ground arith

  -- With at least two slots, every world that can be reached is in order.
  pub Reach-Ordered : {cap : ℕ} {w : World A} → 2 ≤ cap → Reach cap w → Ordered cap w
  Reach-Ordered {cap} two (start {r} e) =
      subst (λ r. Ordered cap (record { ring = r; pcs = λ _. idle; log = [] })) (new-eq cap r e)
        (_, start-Inv cap two)
  Reach-Ordered two (later r m) = Move-Ordered (Reach-Ordered two r) m
