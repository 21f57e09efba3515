-- ===== src/Buffer/RingBuffer/Log.antt =====
-- What a log of events says of the items: which sequence number each was claimed for, and how often
-- a number was delivered.
use do_logger.Prelude.{ℕ, suc, ◌≤◌, ◌≡◌, Option, none, some, List, [], ◌∷◌, ◌==◌, if◌then◌else◌}
use do_logger.Buffer.RingBuffer.{Event, claim, deliver, measure, quiet, refuse}

module _ {A : Type 0} where
  -- The item that the latest claim of `q` is for.
  abbrev pub claimed_at : ℕ → List (Event A) → Option A
  claimed_at q [] = none
  claimed_at q (claim p x ∷ l) = if p == q then some x else claimed_at q l
  claimed_at q (quiet ∷ l) = claimed_at q l
  claimed_at q (refuse x ∷ l) = claimed_at q l
  claimed_at q (deliver c x ∷ l) = claimed_at q l
  claimed_at q (measure n ∷ l) = claimed_at q l

  abbrev pub claims : List (Event A) → ℕ
  claims [] = 0
  claims (claim p x ∷ l) = suc (claims l)
  claims (quiet ∷ l) = claims l
  claims (refuse x ∷ l) = claims l
  claims (deliver c x ∷ l) = claims l
  claims (measure n ∷ l) = claims l

  abbrev pub deliveries : ℕ → List (Event A) → ℕ
  deliveries q [] = 0
  deliveries q (deliver c x ∷ l) = if c == q then suc (deliveries q l) else deliveries q l
  deliveries q (quiet ∷ l) = deliveries q l
  deliveries q (refuse x ∷ l) = deliveries q l
  deliveries q (claim p x ∷ l) = deliveries q l
  deliveries q (measure n ∷ l) = deliveries q l

  -- An event that the log so far allows: claims are numbered in order, and a delivery hands over
  -- the item that its number was claimed for, for the first time.
  abbrev pub Allowed : Event A → List (Event A) → Type 0
  Allowed quiet l = Unit
  Allowed (refuse x) l = Unit
  Allowed (claim p x) l = p ≡ claims l
  Allowed (deliver c x) l = (claimed_at c l ≡ some x) × (deliveries c l ≡ 0)
  Allowed (measure n) l = n ≤ claims l

  abbrev pub IsSound : List (Event A) → Type 0
  IsSound [] = Unit
  IsSound (e ∷ l) = Allowed e l × IsSound l
