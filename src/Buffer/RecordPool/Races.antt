-- ===== src/Buffer/RecordPool/Races.antt =====
-- A compare-exchange on the head alone does not see that the stack changed and changed back.
use mathlib.Core.Path.{fun_ext}
use do_logger.Record.Fields.{reset}
use do_logger.Prelude.{
  ℕ, ◌≡◌, refl, [], ◌∷◌, ◌≤◌, ap, Bool, true, false, Option, none, some, ltb, ◌==◌, if◌then◌else◌,
  sym, subst, ◌∙◌, ◌≢◌, inl, inr, arith, Bool-cases,
}
use do_logger.Buffer.RecordPool.{
  RecordPool, free_head, fresh, idle, new_pool, step, alloc_head, free_reset, update,
}
use do_logger.Buffer.RecordPool.Stack.{count, remove}
use do_logger.Buffer.RecordPool.Steps.{
  Reach, World, begin_alloc, begin_free, later, start, ticks, ticks-Reach, hand_out,
}

-- Thread 0 reads the head 0 and its link; thread 1 takes the records 0 and 1 and gives 0 back;
-- thread 0 takes 0 and leaves 1 as the head; thread 2 takes 1.
abbrev third : Bool → Option ℕ
third true = some 2
third false = none

-- A new pool whose first two links are written out.
abbrev linked : ℕ → Bool → RecordPool
linked n b = record (fresh n) {
  nexts = λ i. if i == 0 then some 1 else if i == 1 then third b else (fresh n).nexts i;
}

third-ltb : (n : ℕ) (b : Bool) → ltb 2 n ≡ b → third b ≡ (fresh n).nexts 1
unfolding fresh
third-ltb n true e = rw e refl
third-ltb n false e = rw e refl

links : (n : ℕ) → 2 ≤ n → (i : ℕ) → (fresh n).nexts i ≡ (linked n (ltb 2 n)).nexts i
unfolding fresh
links n h i = elim (Bool-cases (i == 0)) [
  | inl e ↦
      let q : i ≡ 0 = ground arith in
      let g : ltb 1 n ≡ true = ground arith in rw e (ap (fresh n).nexts q ∙ rw (g, fresh) refl)
  | inr e ↦ rw e (elim (Bool-cases (i == 1)) [
    | inl f ↦
        let q : i ≡ 1 = ground arith in
        rw f (ap (fresh n).nexts q ∙ sym (third-ltb n (ltb 2 n) refl))
    | inr f ↦ rw f refl
  ])
]

fresh-linked : (n : ℕ) → 2 ≤ n → fresh n ≡ linked n (ltb 2 n)
unfolding fresh
fresh-linked n h = ap (λ (f : ℕ → Option ℕ). record (fresh n) { nexts = f }) (fun_ext (links n h))

enter_alloc : World → ℕ → World
enter_alloc w t = record w { pcs = update w.pcs t alloc_head }

enter_free : World → ℕ → ℕ → World
enter_free w t ptr = record w { pcs = update w.pcs t (free_reset ptr); held = remove ptr w.held }

at_start : ℕ → Bool → World
at_start n b = record { pool = linked n b; pcs = λ _. idle; held = [] }

-- Thread 0 has read; thread 1 has taken both records and calls `free`.
freeing : ℕ → Bool → World
freeing n b =
    enter_free
      (ticks 3
        (enter_alloc (ticks 3 (enter_alloc (ticks 2 (enter_alloc (at_start n b) 0) 0) 1) 1) 1) 1)
      1 0

-- Its first step, which tests the index.
reset_done : ℕ → Bool → World
reset_done n b =
    let w = freeing n b in
    record w {
      pool = record w.pool { records = update w.pool.records 0 (reset (w.pool.records 0)) };
      pcs = update w.pcs 1 (free_head 0);
    }

raced : ℕ → Bool → World
raced n b = ticks 3 (enter_alloc (ticks 1 (ticks 3 (reset_done n b) 1) 0) 2) 2

raced-held : (n : ℕ) (b : Bool) → (raced n b).held ≡ 1 ∷ 0 ∷ 1 ∷ []
unfolding raced reset_done freeing at_start ticks enter_alloc enter_free fresh step hand_out remove
raced-held n true = refl
raced-held n false = refl

one_tick : (n : ℕ) (b : Bool) → ltb 0 n ≡ true → ticks 1 (freeing n b) 1 ≡ reset_done n b
unfolding reset_done freeing at_start ticks enter_alloc enter_free fresh step hand_out remove
one_tick n true g = rw (g, step) refl
one_tick n false g = rw (g, step) refl

start-linked : (n : ℕ) → 2 ≤ n → Reach n (at_start n (ltb 2 n))
unfolding new_pool at_start
start-linked n h =
    let g : ltb 0 n ≡ true = ground arith in
    let e : new_pool n ≡ some (linked n (ltb 2 n)) =
      rw (g, new_pool) (ap some (fresh-linked n h)) in
    start e

begin_alloc-Reach :
    {n : ℕ} (w : World) (t : ℕ) → w.pcs t ≡ idle → Reach n w → Reach n (enter_alloc w t)
unfolding enter_alloc
begin_alloc-Reach w t e r = later r (begin_alloc t e)

begin_free-Reach :
    {n : ℕ} (w : World) (t ptr : ℕ)
    → w.pcs t ≡ idle
    → count ptr w.held ≢ 0
    → Reach n w
    → Reach n (enter_free w t ptr)
unfolding enter_free
begin_free-Reach w t ptr e c r = later r (begin_free t ptr e c)

taken_both : ℕ → Bool → World
taken_both n b =
    ticks 3 (enter_alloc (ticks 3 (enter_alloc (ticks 2 (enter_alloc (at_start n b) 0) 0) 1) 1) 1) 1

freeing-Reach : (n : ℕ) (b : Bool) → Reach n (at_start n b) → Reach n (freeing n b)
unfolding taken_both freeing at_start ticks enter_alloc enter_free fresh step hand_out count
freeing-Reach n b r =
    let a = ticks-Reach 2 _ 0 (begin_alloc-Reach (at_start n b) 0 refl r) in
    let c =
      ticks-Reach 3 _ 1 (begin_alloc-Reach (ticks 2 (enter_alloc (at_start n b) 0) 0) 1 refl a) in
    let d = ticks-Reach 3 _ 1 (
      begin_alloc-Reach (ticks 3 (enter_alloc (ticks 2 (enter_alloc (at_start n b) 0) 0) 1) 1) 1
        refl c) in
    begin_free-Reach (taken_both n b) 1 0 refl (λ e. omega (arith, e)) d

before_last : ℕ → Bool → World
before_last n b = ticks 1 (ticks 3 (reset_done n b) 1) 0

before_last-idle : (n : ℕ) (b : Bool) → (before_last n b).pcs 2 ≡ idle
unfolding before_last reset_done freeing at_start ticks enter_alloc enter_free fresh step hand_out
before_last-idle n true = refl
before_last-idle n false = refl

raced-Reach : (n : ℕ) (b : Bool) → ltb 0 n ≡ true → Reach n (at_start n b) → Reach n (raced n b)
unfolding raced before_last
raced-Reach n b g r =
    let a =
      subst (Reach n) (one_tick n b g) (ticks-Reach 1 (freeing n b) 1 (freeing-Reach n b r)) in
    let c = ticks-Reach 1 (ticks 3 (reset_done n b) 1) 0 (ticks-Reach 3 (reset_done n b) 1 a) in
    ticks-Reach 3 (enter_alloc (before_last n b) 2) 2
      (begin_alloc-Reach (before_last n b) 2 (before_last-idle n b) c)

-- With at least two records the pool hands one out twice: there is a reachable world in which the
-- record 1 was handed out to two callers and given back by none, since the compare-exchange of
-- `alloc` does not see that the head that it read was taken and given back in between.
pub handed_out_twice : (n : ℕ) → 2 ≤ n → (w : World) × Reach n w × (w.held ≡ 1 ∷ 0 ∷ 1 ∷ [])
handed_out_twice n h =
    let g : ltb 0 n ≡ true = ground arith in
    let b = ltb 2 n in (raced n b, raced-Reach n b g (start-linked n h), raced-held n b)
