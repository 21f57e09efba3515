-- ===== src/Buffer/RingBuffer/Safety.antt =====
-- What the sequence protocol of core/src/buffer/ring_buffer.rs guarantees in every interleaving.
use do_logger.Prelude.{
  ℕ, ◌+◌, ◌%◌, ◌≤◌, ◌<◌, ◌≡◌, refl, ap, subst, ◌∙◌, ◌⊎◌, inl, inr, Option, none, some, arith, ltb,
  if◌then◌else◌, sym, Option-cases,
}
use native.Mathlib.Decide.{ℕ_discrete}
use do_logger.Buffer.RingBuffer.Invariant.Slots.{apart_ne}
use native.Mathlib.Nat.{le_trans}
use do_logger.Buffer.RingBuffer.Invariant.Steps.{mine, two}
use do_logger.Buffer.RingBuffer.{
  Pc, World, drain_check, drain_claim, drain_producer, drain_release, drain_start, drain_take,
  drain_wait, idle, len_producer, len_start, push_claim, push_producer, push_publish, push_start,
  push_wait, push_write, slot, Reach,
}
use do_logger.Buffer.RingBuffer.Log.{claimed_at, IsSound, claims, deliveries}
use do_logger.Buffer.RingBuffer.Invariant.{
  FitsAt, Inv, Stage, claimed, done, emptied, hold, owner, published, ready, released, taking,
  vacant, written,
}
use do_logger.Buffer.RingBuffer.Invariant.Moves.{Reach-Ordered}

module _ {A : Type 0} where
  -- The sequence number whose slot a thread reads or writes, from its access to the item until it
  -- has stored the slot's sequence.
  abbrev pub touches : Pc A → Option ℕ
  touches (push_write x p) = some p
  touches (push_publish p) = some p
  touches (drain_take helping left c) = some c
  touches (drain_release helping left c) = some c
  touches idle = none
  touches (push_start x) = none
  touches (push_producer x c) = none
  touches (push_claim x p) = none
  touches (push_wait x p) = none
  touches (drain_start helping left) = none
  touches (drain_producer helping left c) = none
  touches (drain_wait helping left c) = none
  touches (drain_check left c) = none
  touches (drain_claim helping left c) = none
  touches len_start = none
  touches (len_producer c) = none

  module _ {cap : ℕ} {w : World A} {stage : ℕ → Stage} (inv : Inv cap w stage) where
    open inv use {room, order, bound, fits, holds, held, counted, delivered}

    -- A thread at a slot has the number in hand, and the slot's sequence is the number or the next.
    abbrev InSlot : ℕ → ℕ → Type 0
    InSlot t p =
        (owner (stage p) ≡ some t)
        × (((slot w.ring p).sequence ≡ p) ⊎ ((slot w.ring p).sequence ≡ p + 1))

    in_slot :
        (t p : ℕ) (s : Stage)
        → (FitsAt w.ring w.log p s
            → ((slot w.ring p).sequence ≡ p) ⊎ ((slot w.ring p).sequence ≡ p + 1))
        → owner s ≡ some t
        → hold t (w.pcs t) ≡ some (p, s)
        → InSlot t p
    in_slot t p s f own e =
        let at_s : stage p ≡ s = holds t p s e in
        (ap owner at_s ∙ own, f (subst (FitsAt w.ring w.log p) at_s (fits p)))

    touch : (t p : ℕ) (pc : Pc A) → w.pcs t ≡ pc → touches pc ≡ some p → InSlot t p
    touch t p (push_write x q) at e =
        in_slot t p (ready t) (λ f. inl f.2) refl (ap (hold t) at ∙ cc)
    touch t p (push_publish q) at e =
        in_slot t p (written t) (λ f. inl f.2) refl (ap (hold t) at ∙ cc)
    touch t p (drain_take b l q) at e =
        in_slot t p (taking t) (λ f. inr f.1) refl (ap (hold t) at ∙ cc)
    touch t p (drain_release b l q) at e =
        in_slot t p (emptied t) (λ f. inr f.1) refl (ap (hold t) at ∙ cc)
    touch t p idle at e = cc
    touch t p (push_start x) at e = cc
    touch t p (push_producer x c) at e = cc
    touch t p (push_claim x q) at e = cc
    touch t p (push_wait x q) at e = cc
    touch t p (drain_start b l) at e = cc
    touch t p (drain_producer b l c) at e = cc
    touch t p (drain_wait b l c) at e = cc
    touch t p (drain_check l c) at e = cc
    touch t p (drain_claim b l c) at e = cc
    touch t p len_start at e = cc
    touch t p (len_producer c) at e = cc

    same_slot :
        (t u p q : ℕ) → InSlot t p → InSlot u q → p % w.ring.capacity ≡ q % w.ring.capacity → t ≡ u
    same_slot t u p q (own_t, f) (own_u, g) e = elim (ℕ_discrete p q) [
      | yes c ↦
          let own : owner (stage q) ≡ some t = subst (λ v. owner (stage v) ≡ some t) c own_t in cc
      | no ne ↦
          let s : (slot w.ring p).sequence ≡ (slot w.ring q).sequence =
            ap (λ i. (w.ring.slots i).sequence) e in
          absurd (
            ground (
              arith,
              apart_ne w.ring.capacity p q (omega arith) e,
              apart_ne w.ring.capacity q p (omega arith) (sym e),
            ))
    ]

    -- What the stage of a number nobody has in hand says of it.
    at_rest :
        (q : ℕ) (s : Stage)
        → owner s ≡ none
        → FitsAt w.ring w.log q s
        → (done s ≡ (if ltb q w.ring.consumer_sequence then 1 else 0))
          × (w.ring.consumer_sequence ≤ q
              → q < w.ring.producer_sequence
              → (x : A) × ((slot w.ring q).item ≡ some x) × (claimed_at q w.log ≡ some x))
    at_rest q vacant o f = (ground arith, λ le lt. absurd (omega arith))
    at_rest q (claimed t) o f = cc
    at_rest q (ready t) o f = cc
    at_rest q (written t) o f = cc
    at_rest q published o f = (
      ground arith,
      λ le lt. elim (Option-cases (claimed_at q w.log)) [
        | inl gone ↦ absurd (f.4 gone)
        | inr (x, e) ↦ (x, f.3 ∙ e, e)
      ],
    )
    at_rest q (taking t) o f = cc
    at_rest q (emptied t) o f = cc
    at_rest q released o f = (ground arith, λ le lt. absurd (omega arith))

    free : ((t : ℕ) → w.pcs t ≡ idle) → (q : ℕ) → owner (stage q) ≡ none
    free rest q = elim (Option-cases (owner (stage q))) [
      | inl e ↦ e
      | inr (t, e) ↦
          let none_held : ◌≡◌ {A = Option (ℕ × Stage)} none (some (q, stage q)) =
            sym (ap (hold t) (rest t)) ∙ held t q e in
          cc
    ]

  -- Two threads never stand at one slot together: with at least two slots, in every reachable
  -- world, threads that read or write slots of the same index, from the access to the item until
  -- the slot's sequence is stored, are one thread.
  pub exclusive_access :
      {cap : ℕ} {w : World A}
      → 2 ≤ cap
      → Reach cap w
      → (t u p q : ℕ) → touches (w.pcs t) ≡ some p
      → touches (w.pcs u) ≡ some q
      → p % cap ≡ q % cap
      → t ≡ u
  exclusive_access {w = w} two r t u p q at at' e =
      let (stage, inv) = Reach-Ordered two r in
      same_slot inv t u p q (touch inv t p (w.pcs t) refl at) (touch inv u q (w.pcs u) refl at')
        (rw inv.room.0 e)

  -- In every reachable world of a ring with at least two slots the events are in order: the n-th
  -- claim is of number n, each delivery hands over the very item that its number was claimed for,
  -- no number is delivered twice, and `len` returns at most the number of claims.
  pub log-IsSound : {cap : ℕ} {w : World A} → 2 ≤ cap → Reach cap w → IsSound w.log
  log-IsSound two r = let (stage, inv) = Reach-Ordered two r in inv.sound

  -- In every reachable world of a ring with at least two slots that no thread is working on,
  -- nothing is lost: the numbers below the consumer's cursor were delivered exactly once and no
  -- other number was, there are as many claims as the producer's cursor says, and every claimed
  -- number from the consumer's cursor on has its item in its slot.
  pub rest_conserved :
      {cap : ℕ} {w : World A}
      → 2 ≤ cap
      → Reach cap w
      → ((t : ℕ) → w.pcs t ≡ idle)
      → (claims w.log ≡ w.ring.producer_sequence)
        × ((q : ℕ) → deliveries q w.log ≡ (if ltb q w.ring.consumer_sequence then 1 else 0))
        × ((q : ℕ)
            → w.ring.consumer_sequence ≤ q
            → q < w.ring.producer_sequence
            → (x : A) × ((slot w.ring q).item ≡ some x) × (claimed_at q w.log ≡ some x))
  rest_conserved {w = w} two r rest =
      let (stage, inv) = Reach-Ordered two r in
      (
        inv.counted,
        λ q. inv.delivered q ∙ (at_rest inv q (stage q) (free inv rest q) (inv.fits q)).0,
        λ q. (at_rest inv q (stage q) (free inv rest q) (inv.fits q)).1,
      )

  -- In every reachable world of a ring with at least two slots the consumer's cursor is at most the
  -- producer's, which is at most a capacity ahead; and the subtractions of `try_push` and `len` do
  -- not underflow, however late the second cursor is read.
  pub cursors_bounded :
      {cap : ℕ} {w : World A}
      → 2 ≤ cap
      → Reach cap w
      → (w.ring.consumer_sequence ≤ w.ring.producer_sequence)
        × (w.ring.producer_sequence ≤ w.ring.consumer_sequence + cap)
        × ((t c : ℕ) (x : A) → w.pcs t ≡ push_producer x c → c ≤ w.ring.producer_sequence)
        × ((t c : ℕ) → w.pcs t ≡ len_producer c → c ≤ w.ring.producer_sequence)
  cursors_bounded {w = w} two r =
      let (stage, inv) = Reach-Ordered two r in
      (
        inv.order,
        omega arith,
        λ t c x e. le_trans (mine inv t (push_producer x c) e) inv.order,
        λ t c e. le_trans (mine inv t (len_producer c) e) inv.order,
      )
