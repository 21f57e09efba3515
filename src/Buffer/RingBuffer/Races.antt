-- ===== src/Buffer/RingBuffer/Races.antt =====
-- A ring of one slot, which `new` admits: the numbers that mark it free and published coincide.
use do_logger.Prelude.{◌≡◌, refl, some, List, [], ◌∷◌}
use do_logger.Buffer.RingBuffer.{
  Event, Reach, World, deliver, drain, is_power_of_two, new, start, try_push,
}
use do_logger.Buffer.RingBuffer.Log.{claimed_at}
use do_logger.Buffer.RingBuffer.Schedule.{Act, advance, initial, invoke, play, play-Reach}

module _ {A : Type 0} where
  start_one : Reach 1 (initial {A = A} 1)
  unfolding new is_power_of_two
  start_one = start refl

  -- Thread 0 pushes `x`; thread 1 claims it; thread 2 pushes `y` before thread 1 takes its item.
  abbrev pub overtaken : A → A → List (Act A)
  overtaken x y =
      invoke 0 (try_push x)
      ∷ advance 0 6
      ∷ invoke 1 (drain 1)
      ∷ advance 1 4
      ∷ invoke 2 (try_push y)
      ∷ advance 2 5
      ∷ advance 1 1
      ∷ []

  -- With one slot an item is lost: for any items `x` and `y` there is a reachable world of a ring
  -- of capacity one in which number 0 was claimed for `x` and its latest event delivers `y` for it.
  pub one_slot_overwrites :
      (x y : A)
      → (w : World A) × Reach 1 w
        × (claimed_at 0 w.log ≡ some x)
        × ((before : List (Event A)) × (w.log ≡ deliver 0 y ∷ before))
  unfolding play
  one_slot_overwrites x y = (
    play (initial 1) (overtaken x y),
    play-Reach (initial 1) (overtaken x y) start_one,
    refl,
    (_, refl),
  )
