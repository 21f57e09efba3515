-- ===== src/Buffer/RingBuffer.antt =====
-- core/src/buffer/ring_buffer.rs, an atomic access at a time: the callers of `try_push`, `drain`
-- and `drain_helping` are threads, each at a program counter that holds its local variables. `&
-- self.mask` is `% capacity`, since the capacity is a power of two. Sequence numbers do not wrap.

pub mod Log
pub mod Invariant
mod Safety
mod Waits
pub mod Schedule
mod Races
mod Tests
use do_logger.Prelude.{
  ℕ, zero, suc, ◌+◌, ◌-◌, ◌%◌, ◌^◌, ◌≡◌, Bool, true, false, not, ◌&&◌, ◌||◌, Option, none, some,
  List, [], ◌∷◌, ltb, leb, ◌==◌, if◌then◌else◌,
}

-- `RingSlot`: `data` and `sequence`.
pub record RingSlot (A : Type 0) : Type 0 where
  pub item : Option A
  pub sequence : ℕ

-- A slot stands at each index below the capacity, and no other index is used.
pub record RingBuffer (A : Type 0) : Type 0 where
  pub slots : ℕ → RingSlot A
  pub capacity : ℕ
  pub producer_sequence : ℕ
  pub consumer_sequence : ℕ

power_up_to : ℕ → ℕ → Bool
power_up_to zero n = n == 1
power_up_to (suc k) n = n == 2 ^ suc k || power_up_to k n

-- `is_power_of_two` on `usize`.
is_power_of_two : ℕ → Bool
unfolding power_up_to
is_power_of_two n = power_up_to 63 n

module _ {A : Type 0} where
  abbrev pub fresh : ℕ → RingBuffer A
  fresh n = record {
    slots = λ i. record { item = none; sequence = i };
    capacity = n;
    producer_sequence = 0;
    consumer_sequence = 0;
  }

  -- A panic is `none`.
  pub new : ℕ → Option (RingBuffer A)
  unfolding is_power_of_two
  new n = if ltb 0 n && is_power_of_two n then some (fresh n) else none

-- Where a thread stands, with the locals that are live there. Of the flags, `true` is for
-- `drain_helping`, and `left` is what `batch_size` or `max_count` leaves to take.
pub data Pc (A : Type 0) : Type 0 where
  idle : Pc A
  push_start : A → Pc A
  push_producer : A → (consumer_seq : ℕ) → Pc A
  push_claim : A → (producer_seq : ℕ) → Pc A
  push_wait : A → (producer_seq : ℕ) → Pc A
  push_write : A → (producer_seq : ℕ) → Pc A
  push_publish : (producer_seq : ℕ) → Pc A
  drain_start : Bool → (left : ℕ) → Pc A
  drain_producer : Bool → (left consumer_seq : ℕ) → Pc A
  drain_wait : Bool → (left consumer_seq : ℕ) → Pc A
  drain_check : (left consumer_seq : ℕ) → Pc A
  drain_claim : Bool → (left consumer_seq : ℕ) → Pc A
  drain_take : Bool → (left consumer_seq : ℕ) → Pc A
  drain_release : Bool → (left consumer_seq : ℕ) → Pc A
  len_start : Pc A
  len_producer : (consumer_seq : ℕ) → Pc A

-- What the callers see: a claim of a sequence number for an item, a full buffer, a call of the
-- consumer's closure, the value of `len`.
pub data Event (A : Type 0) : Type 0 where
  quiet : Event A
  claim : (producer_seq : ℕ) → A → Event A
  refuse : A → Event A
  deliver : (consumer_seq : ℕ) → A → Event A
  measure : ℕ → Event A

abbrev pub update : {A : Type 0} → (ℕ → A) → ℕ → A → ℕ → A
update f i a j = if i == j then a else f j

-- What a thread does next to the ring, where it stands then, and what its caller sees.
pub record Turn (A : Type 0) : Type 0 where
  pub ring : RingBuffer A
  pub pc : Pc A
  pub event : Event A

module _ {A : Type 0} where
  -- `slots[index]` for a sequence number.
  abbrev pub slot : RingBuffer A → ℕ → RingSlot A
  slot r p = r.slots (p % r.capacity)

  abbrev pub set_slot : RingBuffer A → ℕ → RingSlot A → RingBuffer A
  set_slot r p s = record r { slots = update r.slots (p % r.capacity) s }

  abbrev pub store_item : RingBuffer A → ℕ → Option A → RingBuffer A
  store_item r p o = set_slot r p (record { item = o; sequence = (slot r p).sequence })

  abbrev pub store_sequence : RingBuffer A → ℕ → ℕ → RingBuffer A
  store_sequence r p n = set_slot r p (record { item = (slot r p).item; sequence = n })

  abbrev pub goto : RingBuffer A → Pc A → Turn A
  goto r pc = record { ring = r; pc = pc; event = quiet }

  -- `drain` begins again, `drain_helping` gives up.
  abbrev pub retry : Bool → ℕ → Pc A
  retry helping left = if helping then idle else drain_start false left

  -- The closure is called on an item that is there, and counts.
  pub taken : RingBuffer A → Bool → ℕ → ℕ → Option A → Turn A
  taken r helping left c none = goto r (drain_release helping left c)
  taken r helping left c (some x) = record {
    ring = r;
    pc = drain_release helping (left - 1) c;
    event = deliver c x;
  }

  -- One step of a thread. `weak` is a compare-exchange that fails for no reason.
  pub step : Bool → RingBuffer A → Pc A → Turn A
  unfolding taken
  step weak r idle = goto r idle
  step weak r (push_start x) = goto r (push_producer x r.consumer_sequence)
  step weak r (push_producer x c) =
      if leb r.capacity (r.producer_sequence - c)
      then record { ring = r; pc = idle; event = refuse x }
      else goto r (push_claim x r.producer_sequence)
  step weak r (push_claim x p) =
      if r.producer_sequence == p && not weak
      then record {
        ring = record r { producer_sequence = p + 1 };
        pc = push_wait x p;
        event = claim p x;
      }
      else goto r (push_start x)
  step weak r (push_wait x p) =
      goto r (if (slot r p).sequence == p then push_write x p else push_wait x p)
  step weak r (push_write x p) = goto (store_item r p (some x)) (push_publish p)
  step weak r (push_publish p) = goto (store_sequence r p (p + 1)) idle
  step weak r (drain_start helping left) =
      goto r (if left == 0 then idle else drain_producer helping left r.consumer_sequence)
  step weak r (drain_producer helping left c) =
      goto r (if leb r.producer_sequence c then idle else drain_wait helping left c)
  step weak r (drain_wait helping left c) = goto r (
      if (slot r c).sequence == c + 1
      then drain_claim helping left c
      else if helping
      then idle
      else drain_check left c)
  step weak r (drain_check left c) =
      goto r (if r.consumer_sequence == c then drain_wait false left c else drain_start false left)
  step weak r (drain_claim helping left c) =
      if r.consumer_sequence == c && not weak
      then goto (record r { consumer_sequence = c + 1 }) (drain_take helping left c)
      else goto r (retry helping left)
  step weak r (drain_take helping left c) =
      taken (store_item r c none) helping left c (slot r c).item
  step weak r (drain_release helping left c) =
      goto (store_sequence r c (c + r.capacity)) (drain_start helping left)
  step weak r len_start = goto r (len_producer r.consumer_sequence)
  step weak r (len_producer c) = record {
    ring = r;
    pc = idle;
    event = measure (r.producer_sequence - c);
  }

-- The calls that a thread may make.
pub data Call (A : Type 0) : Type 0 where
  try_push : A → Call A
  drain : (batch_size : ℕ) → Call A
  drain_helping : (max_count : ℕ) → Call A
  len : Call A

-- The threads over one ring, with the events so far, the newest first.
pub record World (A : Type 0) : Type 0 where
  pub ring : RingBuffer A
  pub pcs : ℕ → Pc A
  pub log : List (Event A)

module _ {A : Type 0} where
  pub enter : Call A → Pc A
  enter (try_push x) = push_start x
  enter (drain n) = drain_start false n
  enter (drain_helping n) = drain_start true n
  enter Call.len = len_start

  abbrev pub apply : World A → ℕ → Turn A → World A
  apply w t turn = record {
    ring = turn.ring;
    pcs = update w.pcs t turn.pc;
    log = turn.event ∷ w.log;
  }

-- A thread that is idle makes a call, or any thread takes a step.
pub data Move {A : Type 0} (w : World A) : World A → Type 0 where
  begin :
      (t : ℕ) (call : Call A)
      → w.pcs t ≡ idle
      → Move w (record w { pcs = update w.pcs t (enter call) })
  tick : (t : ℕ) (weak : Bool) → Move w (apply w t (step weak w.ring (w.pcs t)))

-- The worlds that a ring of a given capacity can come to.
pub data Reach {A : Type 0} (capacity : ℕ) : World A → Type 0 where
  start :
      {r : RingBuffer A}
      → new capacity ≡ some r
      → Reach capacity (record { ring = r; pcs = λ _. idle; log = [] })
  later : {v w : World A} → Reach capacity v → Move v w → Reach capacity w
