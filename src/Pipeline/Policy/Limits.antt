-- ===== src/Pipeline/Policy/Limits.antt =====
-- How much the rate limiter and the drop-level policy let through.
use do_logger.Record.Level.{LogLevel, as_u8}
use do_logger.Record.Level.Laws.{from_u8-as_u8}
use do_logger.Prelude.Words.{sat_mul64, wrap_add64}
use do_logger.Pipeline.Policy.{
  RateLimiter, evaluate, refill_interval, refills, consume, refill, DropLevelPolicy, evaluate_level,
  level_or_audit, min_level, new, set_min_level,
}
use do_logger.Prelude.{
  ℕ, ◌+◌, ◌-◌, ◌*◌, ◌≤◌, ◌<◌, ◌≡◌, List, [], ◌∷◌, arith, leb, if◌then◌else◌, Bool, true, false,
  refl, subst, ◌∙◌, ◌↔◌,
}

-- How many of the evaluations at the given times are allowed, and the limiter after them.
unfoldable pub evaluate_all : RateLimiter → List ℕ → ℕ × RateLimiter
evaluate_all l [] = (0, l)
evaluate_all l (t ∷ ts) =
    let (allowed, l') = evaluate l t in
    let (n, last) = evaluate_all l' ts in (if allowed then n + 1 else n, last)

refills-le : (elapsed : ℕ) → refills elapsed * refill_interval ≤ elapsed
unfolding refills
refills-le elapsed = omega arith

-- The refills that one evaluation makes.
due : RateLimiter → ℕ → ℕ
due l now = if leb refill_interval (now - l.last_refill) then refills (now - l.last_refill) else 0

refill_bound :
    (l : RateLimiter) (now : ℕ)
    → let l' = refill l now in
      (due l now * refill_interval + l.last_refill ≤ l'.last_refill)
      × (l'.tokens ≤ l.tokens + due l now * (l.tokens_per_refill * 1000))
      × (l'.tokens_per_refill ≡ l.tokens_per_refill)
      × (l'.rate_per_sec ≡ l.rate_per_sec)
unfolding refill due
refill_bound l now = ground (arith, refills-le (now - l.last_refill))

consume_bound :
    (l : RateLimiter)
    → let (allowed, l') = consume l in
      ((if allowed then 1000 else 0) + l'.tokens ≡ l.tokens)
      × (l'.last_refill ≡ l.last_refill)
      × (l'.tokens_per_refill ≡ l.tokens_per_refill)
      × (l'.rate_per_sec ≡ l.rate_per_sec)
unfolding consume
consume_bound l = ground arith

evaluate-enabled :
    (l : RateLimiter) (now : ℕ) → 0 < l.rate_per_sec → evaluate l now ≡ consume (refill l now)
unfolding evaluate
evaluate-enabled l now h = ground arith

-- What one evaluation of an enabled limiter does to its tokens and its clock.
evaluate_bound :
    (l : RateLimiter) (now : ℕ)
    → 0 < l.rate_per_sec
    → let (allowed, l') = evaluate l now in
      (due l now * refill_interval + l.last_refill ≤ l'.last_refill)
      × ((if allowed then 1000 else 0) + l'.tokens
          ≤ l.tokens + due l now * (l.tokens_per_refill * 1000))
      × (l'.tokens_per_refill ≡ l.tokens_per_refill)
      × (l'.rate_per_sec ≡ l.rate_per_sec)
evaluate_bound l now h =
    rw (evaluate-enabled l now h) (omega (arith, refill_bound l now, consume_bound (refill l now)))

allowed_step :
    (allowed : Bool) (n tokens' tokens tokens'' d r gain : ℕ)
    → (if allowed then 1000 else 0) + tokens' ≤ tokens + d * gain
    → n * 1000 + tokens'' ≤ tokens' + r * gain
    → (if allowed then n + 1 else n) * 1000 + tokens'' ≤ tokens + (d + r) * gain
allowed_step true n a b c d r g h k = omega arith
allowed_step false n a b c d r g h k = omega arith

-- A limiter with a positive rate allows, over any sequence of evaluations, at most the tokens that
-- it had and `tokens_per_refill` for each whole refill interval between its last refills before and
-- after the sequence.
pub evaluate_all_bound :
    (ts : List ℕ) (l : RateLimiter)
    → 0 < l.rate_per_sec
    → let (n, last) = evaluate_all l ts in
      (r : ℕ) × (r * refill_interval + l.last_refill ≤ last.last_refill)
      × (n * 1000 + last.tokens ≤ l.tokens + r * (l.tokens_per_refill * 1000))
unfolding evaluate_all
evaluate_all_bound [] l h = (0, omega arith, omega arith)
evaluate_all_bound (t ∷ ts) l h =
    let (clock, tokens, same, rate) = evaluate_bound l t h in
    let (r, clock', tokens') = evaluate_all_bound ts (evaluate l t).1 (omega arith) in
    (
      due l t + r,
      omega arith,
      allowed_step (evaluate l t).0 _ _ _ _ (due l t) r (l.tokens_per_refill * 1000) tokens
          (rw same at tokens'),
    )

tokens-evaluate :
    (l : RateLimiter) (now : ℕ)
    → l.tokens ≤ sat_mul64 l.burst_size 1000
    → let l' = (evaluate l now).1 in
      (l'.tokens ≤ sat_mul64 l'.burst_size 1000) × (l'.burst_size ≡ l.burst_size)
unfolding evaluate
tokens-evaluate l now h = ground arith

burst-evaluate : (l : RateLimiter) (now : ℕ) → (evaluate l now).1.burst_size ≡ l.burst_size
unfolding evaluate
burst-evaluate l now = ground arith

tokens_from :
    (ts : List ℕ) (l : RateLimiter)
    → l.tokens ≤ sat_mul64 l.burst_size 1000
    → (evaluate_all l ts).1.tokens ≤ sat_mul64 (evaluate_all l ts).1.burst_size 1000
unfolding evaluate_all
tokens_from [] l h = h
tokens_from (t ∷ ts) l h = tokens_from ts (evaluate l t).1 (tokens-evaluate l t h).0

burst-evaluate_all :
    (ts : List ℕ) (l : RateLimiter) → (evaluate_all l ts).1.burst_size ≡ l.burst_size
unfolding evaluate_all
burst-evaluate_all [] l = refl
burst-evaluate_all (t ∷ ts) l = burst-evaluate_all ts (evaluate l t).1 ∙ burst-evaluate l t

-- No sequence of evaluations of a limiter from `new` leaves more tokens than the burst size.
pub tokens-new :
    (rate burst start : ℕ) (ts : List ℕ)
    → (evaluate_all (new rate burst start) ts).1.tokens ≤ sat_mul64 burst 1000
unfolding new
tokens-new rate burst start ts =
    subst (λ b. (evaluate_all (new rate burst start) ts).1.tokens ≤ sat_mul64 b 1000)
      (burst-evaluate_all ts (new rate burst start))
      (tokens_from ts (new rate burst start) (omega arith))

-- A level passes the drop-level policy exactly if it is at least the minimum, which is Audit where
-- the stored byte is no level; after `set_min_level` the minimum is the level that was set, and one
-- of the two counters grows by one.
pub evaluate_level_exact :
    (p : DropLevelPolicy) (level minimum : LogLevel)
    → let (kept, p') = evaluate_level p level in
      ((kept ≡ true) ↔ (as_u8 (min_level p) ≤ as_u8 level))
      × (min_level (set_min_level p minimum).1 ≡ minimum)
      × (p'.allowed ≡ (if kept then wrap_add64 p.allowed 1 else p.allowed))
      × (p'.dropped ≡ (if kept then p.dropped else wrap_add64 p.dropped 1))
unfolding evaluate_level min_level set_min_level
evaluate_level_exact p level minimum = (
  (λ h. ground arith, λ h. ground arith),
  rw (from_u8-as_u8 minimum, level_or_audit) refl,
  ground arith,
  ground arith,
)
