-- ===== src/Security/ReplayGuard/Strict.antt =====
-- A guard that rejects gaps: the entries are the last LSNs, and a record is accepted exactly if its
-- LSN follows the highest one.
use native.Mathlib.Decide.{dec_lt, ℕ_discrete}
use do_logger.Prelude.Words.{u64_max}
use do_logger.Prelude.{
  ℕ, zero, suc, ◌+◌, ◌≤◌, ◌<◌, ◌≡◌, refl, ap, ◌∙◌, ◌≢◌, none, some, List, [], ◌∷◌, ◌++◌, arith,
  ◌==◌, if◌then◌else◌, length, ◌⊎◌, sym, subst, inr, true, false, inl, ok,
}
use do_logger.Security.ReplayGuard.{
  Entries, ReplayState, insert, lookup, remove, ReplayPolicy, admit, evict_loop, ReplayDecision,
  accepted, duplicate, gap, hash_conflict, invalid_lsn, observe_state, too_old, is_accepted,
  ReplayGuard, observe, new, new_state,
}

-- `n` numbers from `lo` on.
pub upto : ℕ → ℕ → List ℕ
upto lo zero = []
upto lo (suc n) = lo ∷ upto (suc lo) n

length-upto : (lo n : ℕ) → length (upto lo n) ≡ n
unfolding upto
length-upto lo zero = refl
length-upto lo (suc n) = ap suc (length-upto (suc lo) n)

upto-snoc : (lo n : ℕ) → upto lo n ++ ((lo + n) ∷ []) ≡ upto lo (suc n)
unfolding upto
upto-snoc lo zero = ap (λ k. k ∷ []) (omega arith)
upto-snoc lo (suc n) =
    ap (λ l. lo ∷ l) (ap (λ k. upto (suc lo) n ++ (k ∷ [])) (omega arith) ∙ upto-snoc (suc lo) n)

lookup-insert :
    (k j v : ℕ) (m : Entries) → lookup j (insert k v m) ≡ (if k == j then some v else lookup j m)
unfolding lookup insert
lookup-insert k j v [] = refl
lookup-insert k j v ((key, old) ∷ m) = ground (arith, lookup-insert k j v m)

lookup-remove :
    (k j : ℕ) (m : Entries) → lookup j (remove k m) ≡ (if k == j then none else lookup j m)
unfolding lookup remove
lookup-remove k j [] = ground arith
lookup-remove k j ((key, old) ∷ m) = ground (arith, lookup-remove k j m)

-- The `n` LSNs from `lo` on have entries, and no others.
pub record Holds (lo n : ℕ) (m : Entries) : Type 0 where
  pub inside : (k : ℕ) → lo ≤ k → k < lo + n → lookup k m ≢ none
  pub below : (k : ℕ) → k < lo → lookup k m ≡ none
  pub above : (k : ℕ) → lo + n ≤ k → lookup k m ≡ none

Holds-insert : (lo n v : ℕ) (m : Entries) → Holds lo n m → Holds lo (suc n) (insert (lo + n) v m)
Holds-insert lo n v m h = record {
  inside = λ k p q. ground (arith, lookup-insert (lo + n) k v m, h.inside k p);
  below = λ k p. ground (arith, lookup-insert (lo + n) k v m, h.below k p);
  above = λ k p. ground (arith, lookup-insert (lo + n) k v m, h.above k);
}

Holds-remove : (lo n : ℕ) (m : Entries) → Holds lo (suc n) m → Holds (suc lo) n (remove lo m)
Holds-remove lo n m h = record {
  inside = λ k p q. ground (arith, lookup-remove lo k m, h.inside k);
  below = λ k p. ground (arith, lookup-remove lo k m, h.below k);
  above = λ k p. ground (arith, lookup-remove lo k m, h.above k);
}

-- A state whose window is the `n` LSNs from `lo` on, up to the highest: `n` is below the size `w`
-- only if nothing has left the window yet.
pub record Spans (w lo n : ℕ) (s : ReplayState) : Type 0 where
  pub highest : suc s.highest_lsn ≡ lo + n
  pub ordered : s.order ≡ upto lo n
  pub retained : Holds lo n s.entries
  pub bounded : n ≤ w
  pub starts : (lo ≡ 1) ⊎ (n ≡ w)
  pub positive : 1 ≤ lo

evict_loop-fits : (c : ℕ) (l : List ℕ) (m : Entries) → length l ≤ c → evict_loop c l m ≡ (l, m)
unfolding evict_loop
evict_loop-fits c [] m h = refl
evict_loop-fits c (x ∷ l) m h = ground arith

evict_loop-one :
    (c x : ℕ) (l : List ℕ) (m : Entries) → length l ≡ c → evict_loop c (x ∷ l) m ≡ (l, remove x m)
unfolding evict_loop
evict_loop-one c x l m h = ground (arith, evict_loop-fits c l (remove x m))

-- What eviction leaves of the deque and the map, with room in the window and without.
evict-grows :
    (w lo n : ℕ) (s : ReplayState) (m : Entries)
    → n < w
    → Spans w lo n s
    → evict_loop w (s.order ++ ((lo + n) ∷ [])) m ≡ (upto lo (suc n), m)
evict-grows w lo n s m room v =
    rw (v.ordered, upto-snoc lo n)
      (evict_loop-fits w (upto lo (suc n)) m (omega (arith, length-upto lo (suc n))))

evict-slides :
    (w lo : ℕ) (s : ReplayState) (m : Entries)
    → Spans w lo w s
    → evict_loop w (s.order ++ ((lo + w) ∷ [])) m ≡ (upto (suc lo) w, remove lo m)
unfolding upto
evict-slides w lo s m v =
    rw (v.ordered, upto-snoc lo w)
      (evict_loop-one w lo (upto (suc lo) w) m (length-upto (suc lo) w))

admit-grows :
    (p : ReplayPolicy) (s : ReplayState) (lo n hash : ℕ)
    → n < p.window_size
    → Spans p.window_size lo n s
    → Spans p.window_size lo (suc n) (admit p s (lo + n) hash)
unfolding admit
admit-grows p s lo n hash room v = record {
  highest = ground arith;
  ordered = ap (λ r. r.0) left;
  retained =
      subst (Holds lo (suc n)) (sym (ap (λ r. r.1) left))
        (Holds-insert lo n hash s.entries v.retained);
  bounded = room;
  starts = ground arith;
  positive = v.positive;
}
  where
    left :
        evict_loop p.window_size (s.order ++ ((lo + n) ∷ [])) (insert (lo + n) hash s.entries)
        ≡ (upto lo (suc n), insert (lo + n) hash s.entries)
    left = evict-grows p.window_size lo n s (insert (lo + n) hash s.entries) room v

admit-slides :
    (p : ReplayPolicy) (s : ReplayState) (lo hash : ℕ)
    → Spans p.window_size lo p.window_size s
    → Spans p.window_size (suc lo) p.window_size (admit p s (lo + p.window_size) hash)
unfolding admit
admit-slides p s lo hash v = record {
  highest = ground arith;
  ordered = ap (λ r. r.0) left;
  retained = subst (Holds (suc lo) p.window_size) (sym (ap (λ r. r.1) left)) (
      Holds-remove lo p.window_size (insert (lo + p.window_size) hash s.entries)
        (Holds-insert lo p.window_size hash s.entries v.retained));
  bounded = omega arith;
  starts = inr refl;
  positive = omega arith;
}
  where
    left :
        evict_loop p.window_size
          (s.order ++ ((lo + p.window_size) ∷ []))
          (insert (lo + p.window_size) hash s.entries)
        ≡ (upto (suc lo) p.window_size, remove lo (insert (lo + p.window_size) hash s.entries))
    left = evict-slides p.window_size lo s (insert (lo + p.window_size) hash s.entries) v

-- The decision of a strict guard by the LSN alone, and by the entry where the LSN has one.
abbrev pub Classified : ℕ → ℕ → ℕ → ReplayDecision → Type 0
Classified w h lsn d =
    ((lsn ≡ 0) × (d ≡ invalid_lsn))
    ⊎ ((lsn ≡ suc h) × (d ≡ accepted))
    ⊎ ((suc h < lsn) × (d ≡ gap (suc h) lsn))
    ⊎ ((1 ≤ lsn) × (lsn + w ≤ h) × (d ≡ too_old))
    ⊎ ((1 ≤ lsn) × (lsn ≤ h) × (h < lsn + w) × ((d ≡ duplicate) ⊎ (d ≡ hash_conflict)))

module _ (p : ReplayPolicy) (strict : p.reject_gaps ≡ true) (s : ReplayState) (lo n : ℕ)
    (v : Spans p.window_size lo n s) (lsn hash : ℕ) (small : lsn ≤ u64_max) where
  -- A guard that rejects gaps, whose window holds the last LSNs up to the highest, decides as
  -- follows on any LSN of 64 bits: zero is invalid, the LSN after the highest is accepted, a later
  -- one is a gap, one at least a window behind the highest is too old, and any other is a duplicate
  -- or a hash conflict.
  pub observe-Classified : Classified p.window_size s.highest_lsn lsn (observe_state p s lsn hash).0
  unfolding observe_state
  observe-Classified =
      ground (arith, v.retained.above lsn, v.retained.below lsn, v.retained.inside lsn)

  observe-other :
      lsn ≢ lo + n
      → (is_accepted (observe_state p s lsn hash).0 ≡ false)
        × Spans p.window_size lo n (observe_state p s lsn hash).1
  unfolding observe_state is_accepted
  observe-other h =
      ground (arith, v.retained.above lsn, v.retained.inside lsn, v.retained.below lsn)

  observe-next : lsn ≡ lo + n → observe_state p s lsn hash ≡ (accepted, admit p s (lo + n) hash)
  unfolding observe_state
  observe-next e = ground (arith, v.retained.above lsn)

-- The LSNs that a guard accepts out of a sequence of submissions, in order.
pub accepted_lsns : ReplayGuard → List (ℕ × ℕ) → List ℕ
accepted_lsns g [] = []
accepted_lsns g ((lsn, hash) ∷ rest) =
    let (d, g') = observe g lsn hash in
    let later = accepted_lsns g' rest in if is_accepted d then lsn ∷ later else later

-- Every LSN of the sequence fits 64 bits.
abbrev pub FitsU64 : List (ℕ × ℕ) → Type 0
FitsU64 [] = Unit {0}
FitsU64 ((lsn, hash) ∷ rest) = (lsn ≤ u64_max) × FitsU64 rest

-- What one submission does to the window.
abbrev Moves : ReplayPolicy → ℕ → ℕ → ReplayDecision × ReplayState → Type 0
Moves p lsn next (d, s) =
    (lo : ℕ) × (n : ℕ) × Spans p.window_size lo n s
    × (((is_accepted d ≡ true) × (lsn ≡ next) × (lo + n ≡ suc next))
        ⊎ ((is_accepted d ≡ false) × (lo + n ≡ next)))

module _ (p : ReplayPolicy) (strict : p.reject_gaps ≡ true) (s : ReplayState) (lo n : ℕ)
    (v : Spans p.window_size lo n s) (lsn hash : ℕ) (small : lsn ≤ u64_max) where
  admit-Moves : lsn ≡ lo + n → Moves p lsn (lo + n) (accepted, admit p s (lo + n) hash)
  unfolding is_accepted
  admit-Moves e = elim (dec_lt n p.window_size) [
    | yes room ↦ (lo, suc n, admit-grows p s lo n hash room v, inl (refl, e, omega arith))
    | no full ↦
        let m : n ≡ p.window_size = omega arith in
        (
          suc lo,
          p.window_size,
          rw m (admit-slides p s lo hash (rw m at v)),
          inl (refl, e, omega arith),
        )
  ]

  observe-Moves : Moves p lsn (lo + n) (observe_state p s lsn hash)
  observe-Moves = elim (ℕ_discrete lsn (lo + n)) [
    | yes e ↦ rw (observe-next p strict s lo n v lsn hash small e) (admit-Moves e)
    | no ne ↦
        let (d, w) = observe-other p strict s lo n v lsn hash small ne in (lo, n, w, inr (d, refl))
  ]

accepts_from :
    (obs : List (ℕ × ℕ)) (g : ReplayGuard) (lo n : ℕ)
    → g.policy.reject_gaps ≡ true
    → Spans g.policy.window_size lo n g.state
    → FitsU64 obs
    → (k : ℕ) × (accepted_lsns g obs ≡ upto (lo + n) k)
unfolding accepted_lsns upto observe
accepts_from [] g lo n strict v h = (0, refl)
accepts_from ((lsn, hash) ∷ rest) g lo n strict v h =
    let (lo', n', v', moved) = observe-Moves g.policy strict g.state lo n v lsn hash h.0 in
    let (k, later) = accepts_from rest (observe g lsn hash).1 lo' n' strict v' h.1 in
    elim moved [ inl (d, e, f) ↦ (suc k, rw (d, later, f, e)) | inr (d, f) ↦ (k, rw (d, later, f)) ]

pub new_state-Spans : (w : ℕ) → Spans w 1 0 new_state
unfolding new_state upto lookup
new_state-Spans w = record {
  highest = omega arith;
  ordered = refl;
  retained = record {
    inside = λ k p q. absurd (omega arith);
    below = λ k p. refl;
    above = λ k p. refl;
  };
  bounded = omega arith;
  starts = inl refl;
  positive = omega arith;
}

-- Whatever LSNs of 64 bits a consumer is sent, a guard that rejects gaps, fresh from `new`, accepts
-- the LSNs 1, 2, … in that order, without a gap and without a repetition.
pub accepted_lsns-new :
    (p : ReplayPolicy) (g : ReplayGuard) (obs : List (ℕ × ℕ))
    → new p ≡ ok g
    → p.reject_gaps ≡ true
    → FitsU64 obs
    → (k : ℕ) × (accepted_lsns g obs ≡ upto 1 k)
unfolding new
accepted_lsns-new p g obs e strict h =
    accepts_from obs g 1 0 (ground arith) (ground (arith, new_state-Spans g.policy.window_size)) h
