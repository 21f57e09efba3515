-- ===== src/Buffer/RingBuffer/Invariant.antt =====
-- Who may touch a slot: the stage of every sequence number, as the threads and the slots show it.
pub mod Slots
mod Shift
mod Carry
pub mod Steps
mod Takes
pub mod Moves
use do_logger.Prelude.{ℕ, ◌+◌, ◌≤◌, ◌<◌, ◌≡◌, ◌≢◌, Option, none, some, List}
use do_logger.Buffer.RingBuffer.{
  Event, Pc, RingBuffer, World, drain_check, drain_claim, drain_producer, drain_release,
  drain_start, drain_take, drain_wait, idle, len_producer, len_start, push_claim, push_producer,
  push_publish, push_start, push_wait, push_write, slot,
}
use do_logger.Buffer.RingBuffer.Log.{IsSound, claimed_at, claims, deliveries}

-- How far a sequence number has come, and the thread that works on it.
pub data Stage : Type 0 where
  vacant : Stage
  claimed : ℕ → Stage
  ready : ℕ → Stage
  written : ℕ → Stage
  published : Stage
  taking : ℕ → Stage
  emptied : ℕ → Stage
  released : Stage

abbrev pub owner : Stage → Option ℕ
owner vacant = none
owner (claimed t) = some t
owner (ready t) = some t
owner (written t) = some t
owner published = none
owner (taking t) = some t
owner (emptied t) = some t
owner released = none

-- How often the item was delivered.
abbrev pub done : Stage → ℕ
done vacant = 0
done (claimed t) = 0
done (ready t) = 0
done (written t) = 0
done published = 0
done (taking t) = 0
done (emptied t) = 1
done released = 1

module _ {A : Type 0} where
  -- The sequence number that thread `t` works on, and its stage there.
  abbrev pub hold : ℕ → Pc A → Option (ℕ × Stage)
  hold t (push_wait x p) = some (p, claimed t)
  hold t (push_write x p) = some (p, ready t)
  hold t (push_publish p) = some (p, written t)
  hold t (drain_take helping left c) = some (c, taking t)
  hold t (drain_release helping left c) = some (c, emptied t)
  hold t idle = none
  hold t (push_start x) = none
  hold t (push_producer x c) = none
  hold t (push_claim x p) = none
  hold t (drain_start helping left) = none
  hold t (drain_producer helping left c) = none
  hold t (drain_wait helping left c) = none
  hold t (drain_check left c) = none
  hold t (drain_claim helping left c) = none
  hold t len_start = none
  hold t (len_producer c) = none

  -- What the stage of `q` says of the cursors, and of the number `v` and the item `o` in its slot.
  abbrev pub Fits : (producer consumer cap : ℕ) → Option A → ℕ → ℕ → Option A → Stage → Type 0
  Fits p c n x q v o vacant = (p ≤ q) × (v ≤ q) × (x ≡ none)
  Fits p c n x q v o (claimed t) = (q < p) × (c ≤ q) × (v ≤ q) × (x ≢ none)
  Fits p c n x q v o (ready t) = (q < p) × (c ≤ q) × (v ≡ q) × (x ≢ none)
  Fits p c n x q v o (written t) = (q < p) × (c ≤ q) × (v ≡ q) × (o ≡ x) × (x ≢ none)
  Fits p c n x q v o published = (q < p) × (c ≤ q) × (v ≡ q + 1) × (o ≡ x) × (x ≢ none)
  Fits p c n x q v o (taking t) = (q < c) × (v ≡ q + 1) × (o ≡ x) × (x ≢ none)
  Fits p c n x q v o (emptied t) = (q < c) × (v ≡ q + 1)
  Fits p c n x q v o released = (q < c) × (q + n ≤ v)

  -- What the locals of a thread say of the ring, whatever the other threads do.
  abbrev pub Knows : (producer consumer cap : ℕ) → (ℕ → Option A) → (ℕ → Stage) → Pc A → Type 0
  Knows m n k item stage (push_producer x c) = c ≤ n
  Knows m n k item stage (push_claim x p) = p < n + k
  Knows m n k item stage (push_wait x p) = item p ≡ some x
  Knows m n k item stage (push_write x p) = item p ≡ some x
  Knows m n k item stage (drain_producer helping left c) = c ≤ n
  Knows m n k item stage (drain_wait helping left c) = c < m
  Knows m n k item stage (drain_check left c) = c < m
  Knows m n k item stage (drain_claim helping left c) = n ≤ c → stage c ≡ published
  Knows m n k item stage (len_producer c) = c ≤ n
  Knows m n k item stage idle = Unit
  Knows m n k item stage (push_start x) = Unit
  Knows m n k item stage (push_publish p) = Unit
  Knows m n k item stage (drain_start helping left) = Unit
  Knows m n k item stage (drain_take helping left c) = Unit
  Knows m n k item stage (drain_release helping left c) = Unit
  Knows m n k item stage len_start = Unit

  abbrev pub FitsAt : RingBuffer A → List (Event A) → ℕ → Stage → Type 0
  FitsAt r l q s =
      Fits r.producer_sequence r.consumer_sequence r.capacity (claimed_at q l) q (slot r q).sequence
        (slot r q).item s

  abbrev pub KnowsAt : RingBuffer A → List (Event A) → (ℕ → Stage) → Pc A → Type 0
  KnowsAt r l stage pc =
      Knows r.producer_sequence r.consumer_sequence r.capacity (λ q. claimed_at q l) stage pc

  pub record Inv (cap : ℕ) (w : World A) (stage : ℕ → Stage) : Type 0 where
    pub room : (w.ring.capacity ≡ cap) × (2 ≤ cap)
    pub order : w.ring.consumer_sequence ≤ w.ring.producer_sequence
    pub bound : w.ring.producer_sequence ≤ w.ring.consumer_sequence + w.ring.capacity
    pub fits : (q : ℕ) → FitsAt w.ring w.log q (stage q)
    pub holds : (t q : ℕ) (s : Stage) → hold t (w.pcs t) ≡ some (q, s) → stage q ≡ s
    pub held : (t q : ℕ) → owner (stage q) ≡ some t → hold t (w.pcs t) ≡ some (q, stage q)
    pub knows : (t : ℕ) → KnowsAt w.ring w.log stage (w.pcs t)
    pub counted : claims w.log ≡ w.ring.producer_sequence
    pub delivered : (q : ℕ) → deliveries q w.log ≡ done (stage q)
    pub sound : IsSound w.log
