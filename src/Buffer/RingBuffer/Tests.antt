-- ===== src/Buffer/RingBuffer/Tests.antt =====
-- Runs of core/src/buffer/ring_buffer.rs on small schedules.
use do_logger.Prelude.{
  ℕ, ◌+◌, ◌-◌, ◌≤◌, ◌<◌, ◌≡◌, refl, ◌≢◌, ◌⊎◌, Bool, none, some, List, [], ◌∷◌, arith, ltb,
  if◌then◌else◌, zero, suc,
}
use do_logger.Buffer.RingBuffer.{
  Event, Reach, World, deliver, drain, drain_helping, drain_wait, idle, is_power_of_two,
  len_producer, new, push_producer, push_wait, slot, start, try_push,
}
use do_logger.Buffer.RingBuffer.Log.{IsSound, claimed_at, claims, deliveries}
use do_logger.Buffer.RingBuffer.Invariant.{claimed, emptied, hold, ready, taking, written}
use do_logger.Buffer.RingBuffer.Safety.{
  exclusive_access, log-IsSound, rest_conserved, cursors_bounded,
}
use do_logger.Buffer.RingBuffer.Waits.{waits_for}
use do_logger.Buffer.RingBuffer.Races.{one_slot_overwrites}
use do_logger.Buffer.RingBuffer.Schedule.{advance, initial, invoke, play, play-Reach}

start_two : Reach 2 (initial {A = ℕ} 2)
unfolding new is_power_of_two
start_two = start refl

not_power_of_two : new {A = ℕ} 1000 ≡ none
unfolding new is_power_of_two
not_power_of_two = refl

-- Three pushes, the last one refused, and a `drain_helping` of one item.
abbrev after_three : World ℕ
after_three = play (initial 2) (
    invoke 0 (try_push 7)
    ∷ advance 0 6
    ∷ invoke 1 (try_push 8)
    ∷ advance 1 6
    ∷ invoke 0 (try_push 9)
    ∷ advance 0 6
    ∷ invoke 2 (drain_helping 1)
    ∷ advance 2 7
    ∷ [])

after_three-Reach : Reach 2 after_three
after_three-Reach = play-Reach (initial 2) _ start_two

after_three_log :
    (claimed_at 0 after_three.log ≡ some 7)
    × (deliveries 0 after_three.log ≡ 1)
    × (deliveries 1 after_three.log ≡ 0)
unfolding play
after_three_log = (refl, refl, refl)

-- Thread 0 has number 2 and waits for thread 1, which has claimed number 0 and not released it.
abbrev contended : World ℕ
contended = play (initial 2) (
    invoke 0 (try_push 7)
    ∷ advance 0 6
    ∷ invoke 0 (try_push 8)
    ∷ advance 0 6
    ∷ invoke 1 (drain 1)
    ∷ advance 1 4
    ∷ invoke 0 (try_push 9)
    ∷ advance 0 4
    ∷ [])

contended-Reach : Reach 2 contended
contended-Reach = play-Reach (initial 2) _ start_two

exclusive_access_example : ◌≡◌ {A = ℕ} 1 1
unfolding play
exclusive_access_example = exclusive_access (omega arith) contended-Reach 1 1 0 0 refl refl refl

log-IsSound_example : IsSound after_three.log
log-IsSound_example = log-IsSound (omega arith) after_three-Reach

all_idle : (t : ℕ) → after_three.pcs t ≡ idle
unfolding play
all_idle zero = refl
all_idle (suc zero) = refl
all_idle (suc (suc zero)) = refl
all_idle (suc (suc (suc t))) = ground arith

rest_conserved_example :
    (claims after_three.log ≡ after_three.ring.producer_sequence)
    × ((q : ℕ)
        → deliveries q after_three.log
          ≡ (if ltb q after_three.ring.consumer_sequence then 1 else 0))
    × ((q : ℕ)
        → after_three.ring.consumer_sequence ≤ q
        → q < after_three.ring.producer_sequence
        → (x : ℕ) × ((slot after_three.ring q).item ≡ some x)
          × (claimed_at q after_three.log ≡ some x))
rest_conserved_example = rest_conserved (omega arith) after_three-Reach all_idle

cursors_bounded_example :
    (contended.ring.consumer_sequence ≤ contended.ring.producer_sequence)
    × (contended.ring.producer_sequence ≤ contended.ring.consumer_sequence + 2)
    × ((t c : ℕ) (x : ℕ)
        → contended.pcs t ≡ push_producer x c
        → c ≤ contended.ring.producer_sequence)
    × ((t c : ℕ) → contended.pcs t ≡ len_producer c → c ≤ contended.ring.producer_sequence)
cursors_bounded_example = cursors_bounded (omega arith) contended-Reach

waits_for_example :
    ((x : ℕ) (p : ℕ)
      → contended.pcs 0 ≡ push_wait x p
      → (slot contended.ring p).sequence ≢ p
      → (2 ≤ p)
        × ((u : ℕ) × ((hold u (contended.pcs u) ≡ some (p - 2, taking u))
              ⊎ (hold u (contended.pcs u) ≡ some (p - 2, emptied u)))))
    × ((helping : Bool) (left c : ℕ)
        → contended.pcs 0 ≡ drain_wait helping left c
        → contended.ring.consumer_sequence ≡ c
        → (slot contended.ring c).sequence ≢ c + 1
        → (u : ℕ) × ((hold u (contended.pcs u) ≡ some (c, claimed u))
            ⊎ (hold u (contended.pcs u) ≡ some (c, ready u))
            ⊎ (hold u (contended.pcs u) ≡ some (c, written u))))
waits_for_example = waits_for (omega arith) contended-Reach 0

one_slot_overwrites_example :
    (w : World ℕ) × Reach 1 w
    × (claimed_at 0 w.log ≡ some 7)
    × ((before : List (Event ℕ)) × (w.log ≡ deliver 0 8 ∷ before))
one_slot_overwrites_example = one_slot_overwrites 7 8
