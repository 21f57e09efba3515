-- ===== src/Security/ReplayGuard.antt =====
-- Replay protection for audit records (core/src/security/replay_guard.rs).
-- The mutex makes each call one step. A content hash is any number; the hash map is an association
-- list without repeated keys; the deque is a list, oldest first. `window_size` fits 64 bits.
pub mod Strict
pub mod Permissive
mod Tests
use do_logger.Prelude.{
  ℕ, suc, Bool, true, false, ◌&&◌, ◌||◌, Option, none, some, List, [], ◌∷◌, ◌++◌, ltb, leb, ◌==◌,
  if◌then◌else◌, Result, ok, err, length,
}
use do_logger.Prelude.Words.{sat_add64}

pub data ReplayDecision : Type 0 where
  accepted duplicate hash_conflict too_old invalid_lsn : ReplayDecision
  gap : ℕ → ℕ → ReplayDecision

pub is_accepted : ReplayDecision → Bool
is_accepted d = elim d [ accepted ↦ true | _ ↦ false ]

pub is_security_event : ReplayDecision → Bool
is_security_event d = elim d [
  | hash_conflict ↦ true
  | too_old ↦ true
  | gap e f ↦ true
  | invalid_lsn ↦ true
  | _ ↦ false
]

pub record ReplayPolicy : Type 0 where
  pub window_size : ℕ
  pub reject_gaps : Bool
  pub reject_duplicates : Bool

pub default_policy : ReplayPolicy
default_policy = record { window_size = 4096; reject_gaps = true; reject_duplicates = false }

pub data ReplayPolicyError : Type 0 where
  invalid_window : ReplayPolicyError

pub validate : ReplayPolicy → Result ReplayPolicyError ReplayPolicy
validate p = if p.window_size == 0 || ltb 1_000_000 p.window_size then err invalid_window else ok p

abbrev pub Entries : Type 0
Entries = List (ℕ × ℕ)

pub lookup : ℕ → Entries → Option ℕ
lookup lsn [] = none
lookup lsn ((key, hash) ∷ rest) = if key == lsn then some hash else lookup lsn rest

pub insert : ℕ → ℕ → Entries → Entries
insert lsn hash [] = (lsn, hash) ∷ []
insert lsn hash ((key, old) ∷ rest) =
    if key == lsn then (lsn, hash) ∷ rest else (key, old) ∷ insert lsn hash rest

pub remove : ℕ → Entries → Entries
remove lsn [] = []
remove lsn ((key, hash) ∷ rest) =
    if key == lsn then remove lsn rest else (key, hash) ∷ remove lsn rest

pub record ReplayState : Type 0 where
  pub highest_lsn : ℕ
  pub entries : Entries
  pub order : List ℕ
  pub accepted_count : ℕ
  pub duplicates : ℕ
  pub conflicts : ℕ
  pub too_old_count : ℕ
  pub gaps : ℕ

pub new_state : ReplayState
new_state = record {
  highest_lsn = 0;
  entries = [];
  order = [];
  accepted_count = 0;
  duplicates = 0;
  conflicts = 0;
  too_old_count = 0;
  gaps = 0;
}

-- The loop of `evict_to` over the deque and the map.
pub evict_loop : ℕ → List ℕ → Entries → List ℕ × Entries
evict_loop capacity [] entries = ([], entries)
evict_loop capacity (lsn ∷ rest) entries =
    let evicted = evict_loop capacity rest (remove lsn entries) in
    if ltb capacity (suc (length rest)) then evicted else (lsn ∷ rest, entries)

pub evict_to : ReplayState → ℕ → ReplayState
unfolding evict_loop
evict_to s capacity =
    let (order, entries) = evict_loop capacity s.order s.entries in
    record s { order = order; entries = entries }

pub record ReplayGuard : Type 0 where
  pub policy : ReplayPolicy
  pub state : ReplayState

pub new : ReplayPolicy → Result ReplayPolicyError ReplayGuard
unfolding validate new_state
new p = elim (validate p) [
  | ok valid ↦ ok (record { policy = valid; state = new_state })
  | err e ↦ err e
]

-- The record that passes every check of `observe` enters the window.
pub admit : ReplayPolicy → ReplayState → ℕ → ℕ → ReplayState
unfolding evict_to insert
admit p s lsn hash =
    let s' : ReplayState =
      evict_to
        (record s {
          highest_lsn = if ltb s.highest_lsn lsn then lsn else s.highest_lsn;
          entries = insert lsn hash s.entries;
          order = s.order ++ (lsn ∷ []);
        })
        p.window_size in
    record s' { accepted_count = sat_add64 s'.accepted_count 1 }

-- What `observe` does with an LSN that has no entry.
pub observe_new : ReplayPolicy → ReplayState → ℕ → ℕ → ReplayDecision × ReplayState
unfolding admit
observe_new p s lsn hash =
    if ltb p.window_size s.highest_lsn && leb (sat_add64 lsn p.window_size) s.highest_lsn
    then (too_old, record s { too_old_count = sat_add64 s.too_old_count 1 })
    else if p.reject_gaps && ltb (sat_add64 s.highest_lsn 1) lsn
    then (gap (sat_add64 s.highest_lsn 1) lsn, record s { gaps = sat_add64 s.gaps 1 })
    else (accepted, admit p s lsn hash)

pub observe_lookup : ReplayPolicy → ReplayState → ℕ → ℕ → Option ℕ → ReplayDecision × ReplayState
unfolding observe_new
observe_lookup p s lsn hash none = observe_new p s lsn hash
observe_lookup p s lsn hash (some previous) =
    if previous == hash
    then (duplicate, record s { duplicates = sat_add64 s.duplicates 1 })
    else (hash_conflict, record s { conflicts = sat_add64 s.conflicts 1 })

pub observe_state : ReplayPolicy → ReplayState → ℕ → ℕ → ReplayDecision × ReplayState
unfolding observe_lookup lookup
observe_state p s lsn hash =
    if lsn == 0
    then (invalid_lsn, record s { conflicts = sat_add64 s.conflicts 1 })
    else observe_lookup p s lsn hash (lookup lsn s.entries)

pub observe : ReplayGuard → ℕ → ℕ → ReplayDecision × ReplayGuard
unfolding observe_state
observe g lsn hash =
    let (d, s) = observe_state g.policy g.state lsn hash in (d, record g { state = s })

pub record ReplayStats : Type 0 where
  pub highest_lsn : ℕ
  pub retained : ℕ
  pub accepted_count : ℕ
  pub duplicates : ℕ
  pub conflicts : ℕ
  pub too_old_count : ℕ
  pub gaps : ℕ

pub snapshot : ReplayGuard → ReplayStats
snapshot g = record {
  highest_lsn = s.highest_lsn;
  retained = length s.entries;
  accepted_count = s.accepted_count;
  duplicates = s.duplicates;
  conflicts = s.conflicts;
  too_old_count = s.too_old_count;
  gaps = s.gaps;
}
  where
    open g use {state as s}

pub reset : ReplayGuard → ReplayGuard
unfolding new_state
reset g = record g { state = new_state }

-- A sequence of submissions, with the decision on each.
pub observe_all : ReplayGuard → List (ℕ × ℕ) → List ReplayDecision × ReplayGuard
observe_all g [] = ([], g)
observe_all g ((lsn, hash) ∷ rest) =
    let (d, g') = observe g lsn hash in let (ds, last) = observe_all g' rest in (d ∷ ds, last)
