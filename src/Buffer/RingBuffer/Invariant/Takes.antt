-- ===== src/Buffer/RingBuffer/Invariant/Takes.antt =====
-- The consumers' steps.
use do_logger.Prelude.{
  ℕ, suc, ◌+◌, ◌-◌, ◌%◌, ◌≡◌, refl, sym, ap, subst, ◌∙◌, inl, inr, Bool, Option, none, some, ◌∷◌,
  arith,
}
use do_logger.Buffer.RingBuffer.{
  World, apply, deliver, drain_claim, drain_release, drain_start, drain_take, goto, quiet, slot,
  store_item, store_sequence, taken, update,
}
use do_logger.Buffer.RingBuffer.Log.{deliveries}
use do_logger.Buffer.RingBuffer.Invariant.{
  FitsAt, Inv, Stage, done, emptied, owner, published, released, taking,
}
use do_logger.Buffer.RingBuffer.Invariant.Slots.{Fits-pass, FitsAt-release, FitsAt-store_item}
use do_logger.Buffer.RingBuffer.Invariant.Shift.{update_both}
use do_logger.Buffer.RingBuffer.Invariant.Carry.{shift-Inv}
use do_logger.Buffer.RingBuffer.Invariant.Steps.{
  ==_false, ==_self, handover, holding, in_hand, mine, next-Inv, two,
}

module _ {A : Type 0} {cap : ℕ} {w : World A} {stage : ℕ → Stage} (inv : Inv cap w stage)
    (t : ℕ) where
  open inv use {room, order, bound, fits, holds, held, knows, counted, delivered, sound}

  module _ (helping : Bool) (left c : ℕ) where
    -- The compare-exchange of `drain` or `drain_helping` succeeds.
    pub pass-Inv :
        w.pcs t ≡ drain_claim helping left c
        → w.ring.consumer_sequence ≡ c
        → Inv cap
            (apply w t
              (goto (record w.ring { consumer_sequence = c + 1 }) (drain_take helping left c)))
            (update stage c (taking t))
    pass-Inv at e =
        shift-Inv inv t c (taking t) (drain_take helping left c) w.ring.slots (c + 1) quiet
          (omega arith) (omega (arith, f.0))
          (handover inv t (drain_claim helping left c) at c (taking t) (drain_take helping left c)
            (inr refl) (inr (ap owner open_)) (inl (refl, refl)))
          (λ p. refl) refl
          (update_both (λ p s. deliveries p w.log ≡ done s) stage c (taking t)
            (delivered c ∙ ap done open_) (λ p ne. delivered p))
          tt (λ le e'. absurd (omega arith))
          (
            λ p ne. Fits-pass _ _ _ _ c p _ _ (stage p) e ne (fits p),
            (omega arith, f.2, f.3, f.4),
            tt,
          )
      where
        open_ : stage c ≡ published
        open_ = mine inv t (drain_claim helping left c) at (omega arith)

        f : FitsAt w.ring w.log c published
        f = subst (FitsAt w.ring w.log c) open_ (fits c)

    pub take-Inv :
        w.pcs t ≡ drain_take helping left c
        → (o : Option A) → (slot w.ring c).item ≡ o
        → Inv cap
            (apply w t (taken (store_item w.ring c none) helping left c o))
            (update stage c (emptied t))
    unfolding taken
    take-Inv at none e = absurd (
        (in_hand inv t _ at c (taking t) refl).3 (sym (in_hand inv t _ at c (taking t) refl).2 ∙ e))
    take-Inv at (some x) e =
        shift-Inv inv t c (emptied t) (drain_release helping (left - 1) c) _
          w.ring.consumer_sequence (deliver c x) (omega arith) order
          (handover inv t (drain_take helping left c) at c (emptied t)
            (drain_release helping (left - 1) c) (inl (ap (λ s. some (c, s)) (sym at_s)))
            (inl (ap owner at_s)) (inl (refl, refl)))
          (λ p. refl) refl
          (update_both (λ p s. deliveries p (deliver c x ∷ w.log) ≡ done s) stage c (emptied t)
            (rw (==_self c) (ap suc (delivered c ∙ ap done at_s)))
            (λ p ne. rw (==_false c p ne) (delivered p)))
          (sym f.2 ∙ e, delivered c ∙ ap done at_s) (λ le e'. cc (sym e' ∙ at_s))
          (
            λ p ne.
                FitsAt-store_item w.ring w.log c p (stage p) (two inv t) ne none (inr f.1) (fits p),
            rw (==_self (c % w.ring.capacity)) (f.0, f.1),
            tt,
          )
      where
        at_s : stage c ≡ taking t
        at_s = holding inv t (drain_take helping left c) at c (taking t) refl

        f : FitsAt w.ring w.log c (taking t)
        f = in_hand inv t (drain_take helping left c) at c (taking t) refl

    pub release-Inv :
        w.pcs t ≡ drain_release helping left c
        → Inv cap
            (apply w t
              (goto (store_sequence w.ring c (c + w.ring.capacity)) (drain_start helping left)))
            (update stage c released)
    release-Inv at =
        let f : FitsAt w.ring w.log c (emptied t) =
          in_hand inv t (drain_release helping left c) at c (emptied t) refl in
        next-Inv inv t (drain_release helping left c) at c (emptied t) released
          (drain_start helping left) _ refl refl (inr (refl, refl)) refl
          (
            λ q ne. FitsAt-release w.ring w.log c q (stage q) (two inv t) ne f.1 (fits q),
            rw (==_self (c % w.ring.capacity)) (f.0, omega arith),
            tt,
          )
