-- ===== src/Buffer/RingBuffer/Invariant/Carry.antt =====
-- The two ways in which a step keeps the invariant: it leaves every stage, or it takes one sequence
-- number to its next stage.
use do_logger.Prelude.{ℕ, ◌≤◌, ◌≡◌, ◌∙◌, ◌≢◌, Option, some, ◌∷◌, arith, sym}
use mathlib.Core.Path.{fun_ext}
use do_logger.Buffer.RingBuffer.{
  Event, Pc, RingBuffer, RingSlot, World, drain_check, drain_claim, drain_producer, drain_release,
  drain_start, drain_take, drain_wait, idle, len_producer, len_start, push_claim, push_producer,
  push_publish, push_start, push_wait, push_write, update,
}
use do_logger.Buffer.RingBuffer.Log.{Allowed, claimed_at, claims, deliveries}
use do_logger.Buffer.RingBuffer.Invariant.{
  FitsAt, Inv, Knows, KnowsAt, Stage, done, hold, published, owner,
}
use do_logger.Buffer.RingBuffer.Invariant.Shift.{
  Handover, update_both, Handover-Held, Handover-Holds,
}

module _ {A : Type 0} where
  -- The cursors grow, claims stay, and what is published stays so until the cursor passes it.
  module _ (m m' n n' k : ℕ) (item item' : ℕ → Option A) (stage stage' : ℕ → Stage) (more : m ≤ m')
      (past : n ≤ n') (kept : (p : ℕ) (x : A) → item p ≡ some x → item' p ≡ some x)
      (open_ : (c : ℕ) → n' ≤ c → stage c ≡ published → stage' c ≡ published) where
    pub Knows-mono : (pc : Pc A) → Knows m n k item stage pc → Knows m' n' k item' stage' pc
    Knows-mono (push_producer x c) h = omega arith
    Knows-mono (push_claim x p) h = omega arith
    Knows-mono (push_wait x p) h = kept p x h
    Knows-mono (push_write x p) h = kept p x h
    Knows-mono (drain_producer b left c) h = omega arith
    Knows-mono (drain_wait b left c) h = omega arith
    Knows-mono (drain_check left c) h = omega arith
    Knows-mono (drain_claim b left c) h = λ le. open_ c le (h (omega arith))
    Knows-mono (len_producer c) h = omega arith
    Knows-mono idle h = tt
    Knows-mono (push_start x) h = tt
    Knows-mono (push_publish p) h = tt
    Knows-mono (drain_start b left) h = tt
    Knows-mono (drain_take b left c) h = tt
    Knows-mono (drain_release b left c) h = tt
    Knows-mono len_start h = tt

  module _ {cap : ℕ} {w : World A} {stage : ℕ → Stage} (inv : Inv cap w stage) (t : ℕ) where
    open inv use {room, order, bound, fits, holds, held, knows, counted, delivered, sound}

    -- The thread moves on, with nothing in its hands that it had not before.
    pub stay-Inv :
        (pc : Pc A)
        → hold t pc ≡ hold t (w.pcs t)
        → KnowsAt w.ring w.log stage pc
        → Inv cap (record w { pcs = update w.pcs t pc }) stage
    stay-Inv pc same k = record {
      room = room;
      order = order;
      bound = bound;
      fits = fits;
      holds =
          update_both (λ u p. (q : ℕ) (s : Stage) → hold u p ≡ some (q, s) → stage q ≡ s) w.pcs t pc
            (λ q s e. holds t q s (sym same ∙ e)) (λ u ne. holds u);
      held =
          update_both (λ u p. (q : ℕ) → owner (stage q) ≡ some u → hold u p ≡ some (q, stage q))
            w.pcs t pc (λ q e. same ∙ held t q e) (λ u ne. held u);
      knows = update_both (λ u. KnowsAt w.ring w.log stage) w.pcs t pc k (λ u ne. knows u);
      counted = counted;
      delivered = delivered;
      sound = sound;
    }

    -- An event that the items have no part in.
    pub note-Inv :
        (e : Event A)
        → ((p : ℕ) → claimed_at p (e ∷ w.log) ≡ claimed_at p w.log)
        → claims (e ∷ w.log) ≡ claims w.log
        → ((p : ℕ) → deliveries p (e ∷ w.log) ≡ deliveries p w.log)
        → Allowed e w.log
        → Inv cap (record w { log = e ∷ w.log }) stage
    note-Inv e same claims_same deliveries_same allowed = record {
      room = room;
      order = order;
      bound = bound;
      fits = λ p. rw (same p) (fits p);
      holds = holds;
      held = held;
      knows = λ u. rw (fun_ext same) (knows u);
      counted = claims_same ∙ counted;
      delivered = λ p. deliveries_same p ∙ delivered p;
      sound = (allowed, sound);
    }

    -- The thread takes `q` to the stage `s'`; the slots and the consumer's cursor may change.
    pub shift-Inv :
        (q : ℕ) (s' : Stage) (pc' : Pc A) (slots' : ℕ → RingSlot A) (n' : ℕ) (e : Event A)
        → w.ring.consumer_sequence ≤ n'
        → n' ≤ w.ring.producer_sequence
        → Handover stage t q s' (w.pcs t) pc'
        → ((p : ℕ) → claimed_at p (e ∷ w.log) ≡ claimed_at p w.log)
        → claims (e ∷ w.log) ≡ claims w.log
        → ((p : ℕ) → deliveries p (e ∷ w.log) ≡ done (update stage q s' p))
        → Allowed e w.log
        → (n' ≤ q → stage q ≡ published → s' ≡ published)
        → (let r' = record w.ring { slots = slots'; consumer_sequence = n' } in
            ((p : ℕ) → q ≢ p → FitsAt r' w.log p (stage p))
            × FitsAt r' w.log q s'
            × KnowsAt r' w.log (update stage q s') pc')
        → Inv cap
            (record {
              ring = record w.ring { slots = slots'; consumer_sequence = n' };
              pcs = update w.pcs t pc';
              log = e ∷ w.log;
            })
            (update stage q s')
    shift-Inv q s' pc' slots' n' e past short h same claims_same tally allowed still
          (away, here, k) =
        record {
          room = room;
          order = short;
          bound = omega arith;
          fits = λ p. rw (same p) (update_both (FitsAt r' w.log) stage q s' here away p);
          holds = Handover-Holds w.pcs stage holds held t q s' pc' h;
          held = Handover-Held w.pcs stage holds held t q s' pc' h;
          knows = λ u. rw (fun_ext same) (knows' u);
          counted = claims_same ∙ counted;
          delivered = tally;
          sound = (allowed, sound);
        }
      where
        r' : RingBuffer A
        r' = record w.ring { slots = slots'; consumer_sequence = n' }

        still' : (c : ℕ) → n' ≤ c → stage c ≡ published → update stage q s' c ≡ published
        still' c le e =
            update_both (λ c s. n' ≤ c → stage c ≡ published → s ≡ published) stage q s' still
              (λ c ne le e. e) c le e

        knows' : (u : ℕ) → KnowsAt r' w.log (update stage q s') (update w.pcs t pc' u)
        knows' =
            update_both (λ u. KnowsAt r' w.log (update stage q s')) w.pcs t pc' k
              (λ u ne.
                Knows-mono w.ring.producer_sequence w.ring.producer_sequence
                  w.ring.consumer_sequence n' w.ring.capacity (λ p. claimed_at p w.log)
                  (λ p. claimed_at p w.log) stage (update stage q s') (omega arith) past
                  (λ p x e. e) still' (w.pcs u) (knows u))
