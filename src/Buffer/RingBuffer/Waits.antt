-- ===== src/Buffer/RingBuffer/Waits.antt =====
-- Why the loops of core/src/buffer/ring_buffer.rs spin: whom a waiting thread waits for.
use do_logger.Prelude.{
  ℕ, ◌+◌, ◌%◌, ◌≤◌, subst, Bool, Option, none, some, arith, ◌-◌, ◌<◌, ◌≡◌, refl, ap, ◌∙◌, ◌≢◌, ◌⊎◌,
  inl, inr,
}
use native.Mathlib.Nat.{le_trans, mod-le, mod-eq_of_lt, mod-eq-sub-mod}
use native.Mathlib.Decide.{dec_lt}
use do_logger.Buffer.RingBuffer.{
  Pc, Reach, RingBuffer, World, begin, drain_check, drain_claim, drain_producer, drain_release,
  drain_start, drain_take, drain_wait, idle, later, len_producer, len_start, push_claim,
  push_producer, push_publish, push_start, push_wait, push_write, slot, start, step, store_item,
  store_sequence, taken, tick,
}
use do_logger.Buffer.RingBuffer.Log.{}
use do_logger.Buffer.RingBuffer.Invariant.{
  FitsAt, Inv, Stage, claimed, emptied, hold, owner, published, ready, released, taking, vacant,
  written,
}
use do_logger.Buffer.RingBuffer.Invariant.Slots.{}
use do_logger.Buffer.RingBuffer.Invariant.Shift.{}
use do_logger.Buffer.RingBuffer.Invariant.Steps.{in_hand, mine, two}
use do_logger.Buffer.RingBuffer.Invariant.Moves.{new-eq, Reach-Ordered}

module _ {A : Type 0} where
  -- A slot's sequence never falls below its index.
  abbrev Floor : RingBuffer A → Type 0
  Floor r = (p : ℕ) → p % r.capacity ≤ (slot r p).sequence

  Floor-store_sequence :
      (r : RingBuffer A) (p n : ℕ) → p % r.capacity ≤ n → Floor r → Floor (store_sequence r p n)
  Floor-store_sequence r p n le f q = ground (arith, f q)

  Floor-store_item : (r : RingBuffer A) (p : ℕ) (o : Option A) → Floor r → Floor (store_item r p o)
  Floor-store_item r p o f q = ground (arith, f q, f p)

  step-Floor : (weak : Bool) (r : RingBuffer A) (pc : Pc A) → Floor r → Floor (step weak r pc).ring
  unfolding step
  step-Floor weak r idle f = f
  step-Floor weak r (push_start x) f = f
  step-Floor weak r (push_producer x c) f = λ q. ground (arith, f q)
  step-Floor weak r (push_claim x p) f = λ q. ground (arith, f q)
  step-Floor weak r (push_wait x p) f = f
  step-Floor weak r (push_write x p) f = Floor-store_item r p (some x) f
  step-Floor weak r (push_publish p) f =
      Floor-store_sequence r p (p + 1) (le_trans (mod-le p r.capacity) (omega arith)) f
  step-Floor weak r (drain_start b left) f = f
  step-Floor weak r (drain_producer b left c) f = f
  step-Floor weak r (drain_wait b left c) f = f
  step-Floor weak r (drain_check left c) f = f
  step-Floor weak r (drain_claim b left c) f = λ q. ground (arith, f q)
  step-Floor weak r (drain_take b left c) f = taken-Floor (slot r c).item
    where
      taken-Floor : (o : Option A) → Floor (taken (store_item r c none) b left c o).ring
      taken-Floor none = Floor-store_item r c none f
      taken-Floor (some x) = Floor-store_item r c none f
  step-Floor weak r (drain_release b left c) f =
      Floor-store_sequence r c (c + r.capacity) (le_trans (mod-le c r.capacity) (omega arith)) f
  step-Floor weak r len_start f = f
  step-Floor weak r (len_producer c) f = f

  Reach-Floor : {cap : ℕ} {w : World A} → Reach cap w → Floor w.ring
  Reach-Floor {cap} (start {r} e) = subst Floor (new-eq cap r e) (λ p. omega arith)
  Reach-Floor (later r (begin t call at)) = Reach-Floor r
  Reach-Floor (later {v} r (tick t weak)) = step-Floor weak v.ring (v.pcs t) (Reach-Floor r)

  module _ {cap : ℕ} {w : World A} {stage : ℕ → Stage} (inv : Inv cap w stage)
      (floor : Floor w.ring) where
    open inv use {room, order, bound, fits, held}

    abbrev TakenBy : ℕ → ℕ → Type 0
    TakenBy u q = (hold u (w.pcs u) ≡ some (q, taking u)) ⊎ (hold u (w.pcs u) ≡ some (q, emptied u))

    abbrev PushedBy : ℕ → ℕ → Type 0
    PushedBy u q =
        (hold u (w.pcs u) ≡ some (q, claimed u))
        ⊎ (hold u (w.pcs u) ≡ some (q, ready u))
        ⊎ (hold u (w.pcs u) ≡ some (q, written u))

    holder : (u q : ℕ) (s : Stage) → stage q ≡ s → owner s ≡ some u → hold u (w.pcs u) ≡ some (q, s)
    holder u q s e own = subst (λ x. hold u (w.pcs u) ≡ some (q, x)) e (held u q (ap owner e ∙ own))

    -- A number below the consumer's cursor that has not been released is in a consumer's hand.
    taker :
        (q : ℕ) (s : Stage)
        → stage q ≡ s
        → q < w.ring.consumer_sequence
        → (slot w.ring q).sequence < q + w.ring.capacity
        → FitsAt w.ring w.log q s
        → (u : ℕ) × TakenBy u q
    taker q vacant e lt v f = absurd (omega arith)
    taker q (claimed u) e lt v f = absurd (omega arith)
    taker q (ready u) e lt v f = absurd (omega arith)
    taker q (written u) e lt v f = absurd (omega arith)
    taker q published e lt v f = absurd (omega arith)
    taker q (taking u) e lt v f = (u, inl (holder u q (taking u) e refl))
    taker q (emptied u) e lt v f = (u, inr (holder u q (emptied u) e refl))
    taker q released e lt v f = absurd (omega arith)

    -- A claimed number that is not published when the consumer's cursor is there is in a
    -- producer's.
    pusher :
        (q : ℕ) (s : Stage)
        → stage q ≡ s
        → w.ring.consumer_sequence ≤ q
        → q < w.ring.producer_sequence
        → (slot w.ring q).sequence ≢ q + 1
        → FitsAt w.ring w.log q s
        → (u : ℕ) × PushedBy u q
    pusher q vacant e le lt v f = absurd (omega arith)
    pusher q (claimed u) e le lt v f = (u, inl (holder u q (claimed u) e refl))
    pusher q (ready u) e le lt v f = (u, inr (inl (holder u q (ready u) e refl)))
    pusher q (written u) e le lt v f = (u, inr (inr (holder u q (written u) e refl)))
    pusher q published e le lt v f = absurd (v f.2)
    pusher q (taking u) e le lt v f = absurd (omega arith)
    pusher q (emptied u) e le lt v f = absurd (omega arith)
    pusher q released e le lt v f = absurd (omega arith)

    push_waits :
        (t : ℕ) (x : A) (p : ℕ)
        → w.pcs t ≡ push_wait x p
        → (slot w.ring p).sequence ≢ p
        → (w.ring.capacity ≤ p) × ((u : ℕ) × TakenBy u (p - w.ring.capacity))
    push_waits t x p at ne = elim (dec_lt p w.ring.capacity) [
      | yes low ↦ absurd (omega (arith, floor p, mod-eq_of_lt low, f.2, ne))
      | no high ↦
          let same : p % w.ring.capacity ≡ (p - w.ring.capacity) % w.ring.capacity =
            mod-eq-sub-mod (omega arith) in
          (
            omega arith,
            taker (p - w.ring.capacity) _ refl (omega (arith, f.0))
                (rw (← ap (λ i. (w.ring.slots i).sequence) same) (omega (arith, f.2, ne)))
                (fits (p - w.ring.capacity)),
          )
    ]
      where
        f : FitsAt w.ring w.log p (claimed t)
        f = in_hand inv t (push_wait x p) at p (claimed t) refl

  -- No waiting thread waits for nothing, in every reachable world of a ring with at least two
  -- slots: a producer that finds its slot not free waits for a thread that has claimed the number a
  -- capacity earlier as a consumer and has not released it; and a consumer whose number is the next
  -- one, and not published, waits for a producer that has claimed that number and not published it.
  pub waits_for :
      {cap : ℕ} {w : World A}
      → 2 ≤ cap
      → Reach cap w
      → (t : ℕ)
      → ((x : A) (p : ℕ)
          → w.pcs t ≡ push_wait x p
          → (slot w.ring p).sequence ≢ p
          → (cap ≤ p)
            × ((u : ℕ) × ((hold u (w.pcs u) ≡ some (p - cap, taking u))
                  ⊎ (hold u (w.pcs u) ≡ some (p - cap, emptied u)))))
        × ((helping : Bool) (left c : ℕ)
            → w.pcs t ≡ drain_wait helping left c
            → w.ring.consumer_sequence ≡ c
            → (slot w.ring c).sequence ≢ c + 1
            → (u : ℕ) × ((hold u (w.pcs u) ≡ some (c, claimed u))
                ⊎ (hold u (w.pcs u) ≡ some (c, ready u))
                ⊎ (hold u (w.pcs u) ≡ some (c, written u))))
  waits_for {w = w} two r t =
      let (stage, inv) = Reach-Ordered two r in
      (
        λ x p at ne.
            subst (λ n. (n ≤ p) × ((u : ℕ) × TakenBy inv (Reach-Floor r) u (p - n))) inv.room.0
              (push_waits inv (Reach-Floor r) t x p at ne),
        λ b left c at e ne.
            pusher inv (Reach-Floor r) c _ refl (omega arith) (mine inv t (drain_wait b left c) at)
              ne (inv.fits c),
      )
