-- ===== src/Buffer/RingBuffer/Invariant/Steps.antt =====
-- Each step of a thread keeps the invariant, at the stages that the step leads to.
use native.Mathlib.Decide.{ℕ_discrete}
use do_logger.Prelude.{
  ℕ, ◌≡◌, refl, sym, ap, ◌∙◌, ◌≢◌, ◌⊎◌, none, some, inl, inr, arith, ◌+◌, suc, ◌%◌, ◌≤◌, subst,
  true, ◌==◌, ==_iff, false, ◌∷◌,
}
use do_logger.Buffer.RingBuffer.{
  Pc, RingSlot, World, apply, goto, quiet, update, claim, idle, push_claim, push_publish, push_wait,
  push_write, slot, store_item, store_sequence, RingBuffer,
}
use do_logger.Buffer.RingBuffer.Log.{deliveries, claimed_at}
use do_logger.Buffer.RingBuffer.Invariant.{
  FitsAt, Inv, KnowsAt, Stage, done, hold, owner, claimed, published, ready, written, vacant,
}
use do_logger.Buffer.RingBuffer.Invariant.Slots.{
  FitsAt-publish, FitsAt-store_item, Fits-claim, Fits-vacant,
}
use do_logger.Buffer.RingBuffer.Invariant.Shift.{
  Handover, update_both, Handover-Held, Handover-Holds,
}
use do_logger.Buffer.RingBuffer.Invariant.Carry.{note-Inv, stay-Inv, shift-Inv, Knows-mono}

pub ==_self : (p : ℕ) → (p == p) ≡ true
==_self p = (==_iff _ _).1 refl

pub ==_false : (p q : ℕ) → p ≢ q → (p == q) ≡ false
==_false p q h = ground arith

module _ {A : Type 0} {cap : ℕ} {w : World A} {stage : ℕ → Stage} (inv : Inv cap w stage)
    (t : ℕ) where
  open inv use {room, order, bound, fits, holds, held, knows, counted, delivered, sound}

  pub two : 2 ≤ w.ring.capacity
  two = omega arith

  -- Thread `t` stands at `pc`.
  module _ (pc : Pc A) (at : w.pcs t ≡ pc) where
    pub mine : KnowsAt w.ring w.log stage pc
    mine = rw at at (knows t)

    -- A step that only moves the thread on.
    pub go-Inv :
        (pc' : Pc A)
        → hold t pc' ≡ hold t pc
        → KnowsAt w.ring w.log stage pc'
        → Inv cap (apply w t (goto w.ring pc')) stage
    go-Inv pc' same k =
        note-Inv (stay-Inv inv t pc' (same ∙ ap (hold t) (sym at)) k) t quiet (λ p. refl) refl
          (λ p. refl) tt

    pub holding : (q : ℕ) (s : Stage) → hold t pc ≡ some (q, s) → stage q ≡ s
    holding q s e = holds t q s (ap (hold t) at ∙ e)

    pub in_hand : (q : ℕ) (s : Stage) → hold t pc ≡ some (q, s) → FitsAt w.ring w.log q s
    in_hand q s e = subst (FitsAt w.ring w.log q) (holding q s e) (fits q)

    -- Thread `t` has `q` in hand, or nobody has; afterwards it has `q`, or nobody has.
    pub handover :
        (q : ℕ) (s' : Stage) (pc' : Pc A)
        → (hold t pc ≡ some (q, stage q)) ⊎ (hold t pc ≡ none)
        → (owner (stage q) ≡ some t) ⊎ (owner (stage q) ≡ none)
        → ((hold t pc' ≡ some (q, s')) × (owner s' ≡ some t))
          ⊎ ((hold t pc' ≡ none) × (owner s' ≡ none))
        → Handover stage t q s' (w.pcs t) pc'
    handover q s' pc' e o e' = record {
      mine = λ u h. elim o [ inl own ↦ cc | inr free ↦ cc ];
      before = λ p s h. elim e [ inl own ↦ cc | inr free ↦ cc ];
      after = λ p s h. elim e' [ inl own ↦ (cc, cc) | inr free ↦ cc ];
      kept = λ u h. elim e' [ inl own ↦ (cc, own.0) | inr free ↦ cc ];
    }

    -- A step that takes the number in hand to its next stage, with no event.
    pub next-Inv :
        (q : ℕ) (s s' : Stage) (pc' : Pc A) (slots' : ℕ → RingSlot A)
        → hold t pc ≡ some (q, s)
        → owner s ≡ some t
        → ((hold t pc' ≡ some (q, s')) × (owner s' ≡ some t))
          ⊎ ((hold t pc' ≡ none) × (owner s' ≡ none))
        → done s' ≡ done s
        → (let r' = record w.ring { slots = slots' } in
            ((p : ℕ) → q ≢ p → FitsAt r' w.log p (stage p))
            × FitsAt r' w.log q s'
            × KnowsAt r' w.log (update stage q s') pc')
        → Inv cap (apply w t (goto (record w.ring { slots = slots' }) pc')) (update stage q s')
    next-Inv q s s' pc' slots' e own e' same parts =
        shift-Inv inv t q s' pc' slots' w.ring.consumer_sequence quiet (omega arith) order
          (handover q s' pc' (inl (e ∙ ap (λ x. some (q, x)) (sym at_s)))
            (inl (ap owner at_s ∙ own)) e')
          (λ p. refl) refl
          (update_both (λ p x. deliveries p w.log ≡ done x) stage q s'
            (delivered q ∙ ap done at_s ∙ sym same) (λ p ne. delivered p))
          tt (λ le e. let bad : none ≡ some t = ap owner (sym e ∙ at_s) ∙ own in cc) parts
      where
        at_s : stage q ≡ s
        at_s = holding q s e

  module _ (x : A) (p : ℕ) where
    -- The compare-exchange of `try_push` succeeds.
    pub claim-Inv :
        w.pcs t ≡ push_claim x p
        → w.ring.producer_sequence ≡ p
        → Inv cap
            (apply w t (record {
              ring = record w.ring { producer_sequence = p + 1 };
              pc = push_wait x p;
              event = claim p x;
            }))
            (update stage p (claimed t))
    claim-Inv at e = record {
      room = room;
      order = omega arith;
      bound = omega (arith, mine (push_claim x p) at);
      fits =
          update_both (FitsAt r' (claim p x ∷ w.log)) stage p (claimed t)
            (rw (==_self p) (omega arith, omega arith, f.1, λ h. cc))
            (λ q ne. rw (==_false p q ne) (Fits-claim _ _ _ _ p q _ _ (stage q) e ne (fits q)));
      holds = Handover-Holds w.pcs stage holds held t p (claimed t) (push_wait x p) h;
      held = Handover-Held w.pcs stage holds held t p (claimed t) (push_wait x p) h;
      knows =
          update_both (λ u. KnowsAt r' (claim p x ∷ w.log) (update stage p (claimed t))) w.pcs t
            (push_wait x p) (rw (==_self p) refl)
            (λ u ne.
              Knows-mono w.ring.producer_sequence (p + 1) w.ring.consumer_sequence
                w.ring.consumer_sequence w.ring.capacity (λ q. claimed_at q w.log)
                (λ q. claimed_at q (claim p x ∷ w.log)) stage (update stage p (claimed t))
                (omega arith) (omega arith) kept open_ (w.pcs u) (knows u));
      counted = ap suc counted ∙ omega arith;
      delivered =
          update_both (λ q s. deliveries q w.log ≡ done s) stage p (claimed t)
            (delivered p ∙ ap done is_vacant) (λ q ne. delivered q);
      sound = (sym e ∙ sym counted, sound);
    }
      where
        is_vacant : stage p ≡ vacant
        is_vacant =
            Fits-vacant w.ring.producer_sequence w.ring.consumer_sequence w.ring.capacity _ p p _ _
              (stage p) order (omega arith) (fits p)

        f : FitsAt w.ring w.log p vacant
        f = subst (FitsAt w.ring w.log p) is_vacant (fits p)

        r' : RingBuffer A
        r' = record w.ring { producer_sequence = p + 1 }

        kept :
            (q : ℕ) (y : A)
            → claimed_at q w.log ≡ some y
            → claimed_at q (claim p x ∷ w.log) ≡ some y
        kept q y h = elim (ℕ_discrete p q) [
          | yes same ↦
              let bad : claimed_at q w.log ≡ none =
                subst (λ v. claimed_at v w.log ≡ none) same f.2 in
              cc
          | no ne ↦ rw (==_false p q ne) h
        ]

        open_ :
            (c : ℕ)
            → w.ring.consumer_sequence ≤ c
            → stage c ≡ published
            → update stage p (claimed t) c ≡ published
        open_ =
            update_both (λ c s. w.ring.consumer_sequence ≤ c → stage c ≡ published → s ≡ published)
              stage p (claimed t) (λ le e. cc is_vacant) (λ c ne le e. e)

        h : Handover stage t p (claimed t) (w.pcs t) (push_wait x p)
        h =
            handover (push_claim x p) at p (claimed t) (push_wait x p) (inr refl)
              (inr (ap owner is_vacant)) (inl (refl, refl))

    pub ready-Inv :
        w.pcs t ≡ push_wait x p
        → (slot w.ring p).sequence ≡ p
        → Inv cap (apply w t (goto w.ring (push_write x p))) (update stage p (ready t))
    ready-Inv at e =
        let f : FitsAt w.ring w.log p (claimed t) = in_hand (push_wait x p) at p (claimed t) refl in
        next-Inv (push_wait x p) at p (claimed t) (ready t) (push_write x p) w.ring.slots refl refl
          (inl (refl, refl)) refl (λ q ne. fits q, (f.0, f.1, e, f.3), mine (push_wait x p) at)

    pub write-Inv :
        w.pcs t ≡ push_write x p
        → Inv cap
            (apply w t (goto (store_item w.ring p (some x)) (push_publish p)))
            (update stage p (written t))
    write-Inv at =
        let f : FitsAt w.ring w.log p (ready t) = in_hand (push_write x p) at p (ready t) refl in
        next-Inv (push_write x p) at p (ready t) (written t) (push_publish p) _ refl refl
          (inl (refl, refl)) refl
          (
            λ q ne. FitsAt-store_item w.ring w.log p q (stage q) two ne (some x) (inl f.2) (fits q),
            rw (==_self (p % w.ring.capacity)) (f.0, f.1, f.2, sym (mine (push_write x p) at), f.3),
            tt,
          )

  pub publish-Inv :
      (p : ℕ)
      → w.pcs t ≡ push_publish p
      → Inv cap (apply w t (goto (store_sequence w.ring p (p + 1)) idle)) (update stage p published)
  publish-Inv p at =
      let f : FitsAt w.ring w.log p (written t) = in_hand (push_publish p) at p (written t) refl in
      next-Inv (push_publish p) at p (written t) published idle _ refl refl (inr (refl, refl)) refl
        (
          λ q ne. FitsAt-publish w.ring w.log p q (stage q) two ne f.2 (fits q),
          rw (==_self (p % w.ring.capacity)) (f.0, f.1, refl, f.3, f.4),
          tt,
        )
