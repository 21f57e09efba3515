-- ===== src/Security/ReplayGuard/Permissive.antt =====
-- A guard that does not reject gaps.
use do_logger.Prelude.{ℕ, ◌+◌, ◌≤◌, ◌<◌, ◌≡◌, true, false, [], ◌∷◌, arith, List}
use do_logger.Prelude.Words.{u64_max}
use do_logger.Security.ReplayGuard.{
  ReplayGuard, ReplayPolicy, accepted, new_state, observe, observe_all, Entries, insert, remove,
}

pub permissive : ReplayPolicy
permissive = record { window_size = 2; reject_gaps = false; reject_duplicates = true }

abbrev pub fresh : ReplayGuard
fresh = record { policy = permissive; state = new_state }

-- The guard with the given highest LSN, entries, order and number of accepted records.
guard_with : ℕ → Entries → List ℕ → ℕ → ReplayGuard
unfolding permissive new_state
guard_with highest entries order count = record fresh {
  state = record new_state {
    highest_lsn = highest;
    entries = entries;
    order = order;
    accepted_count = count;
  };
}

module _ (n hash late next again : ℕ) (h : 2 ≤ n) (k : n + 4 < u64_max) where
  abbrev one : ReplayGuard
  one = guard_with (n + 1) ((n + 1, hash) ∷ []) ((n + 1) ∷ []) 1

  abbrev two : ReplayGuard
  two = guard_with (n + 1) ((n + 1, hash) ∷ (n, late) ∷ []) ((n + 1) ∷ n ∷ []) 2

  abbrev three : ReplayGuard
  three = guard_with (n + 2) ((n, late) ∷ (n + 2, next) ∷ []) (n ∷ (n + 2) ∷ []) 3

  first_accepted : observe fresh (n + 1) hash ≡ (accepted, one)
  unfolding observe permissive new_state guard_with
  first_accepted = ground arith

  second_accepted : observe one n late ≡ (accepted, two)
  unfolding observe permissive new_state guard_with
  second_accepted = ground arith

  inserted :
      insert (n + 2) next ((n + 1, hash) ∷ (n, late) ∷ [])
      ≡ (n + 1, hash) ∷ (n, late) ∷ (n + 2, next) ∷ []
  unfolding insert
  inserted = ground arith

  removed :
      remove (n + 1) ((n + 1, hash) ∷ (n, late) ∷ (n + 2, next) ∷ [])
      ≡ (n, late) ∷ (n + 2, next) ∷ []
  unfolding remove
  removed = ground arith

  third_accepted : observe two (n + 2) next ≡ (accepted, three)
  unfolding observe permissive new_state guard_with
  third_accepted = ground (arith, inserted, removed)

  fourth_accepted : (observe three (n + 1) again).0 ≡ accepted
  unfolding observe permissive new_state guard_with
  fourth_accepted = ground arith

-- Eviction goes by the order of arrival and not by LSN: with a window of two and gaps allowed, an
-- LSN that was accepted, and that is still within the window of the highest LSN, is accepted a
-- second time, with any hash, once its predecessor came late and its successor arrived.
pub replay_accepted :
    (n hash late next again : ℕ)
    → 2 ≤ n
    → n + 4 < u64_max
    → (observe_all fresh ((n + 1, hash) ∷ (n, late) ∷ (n + 2, next) ∷ (n + 1, again) ∷ [])).0
      ≡ accepted ∷ accepted ∷ accepted ∷ accepted ∷ []
unfolding observe_all
replay_accepted n hash late next again h k = ground (
  arith,
  first_accepted n hash late next again h k,
  second_accepted n hash late next again h k,
  third_accepted n hash late next again h k,
  fourth_accepted n hash late next again h k,
)
