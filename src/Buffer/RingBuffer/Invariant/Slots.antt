-- ===== src/Buffer/RingBuffer/Invariant/Slots.antt =====
-- A store to one slot, or a step of one cursor, keeps what holds of every other sequence number.
use do_logger.Prelude.{
  ℕ, ◌+◌, ◌%◌, ◌≤◌, ◌<◌, ◌≡◌, sym, ◌≢◌, ◌⊎◌, Option, arith, ◌/◌, inl, inr, List, ◌==◌, ==_iff,
  Bool-cases, ◌∙◌, refl,
}
use native.Mathlib.Nat.{div-add-mod, mul-le-mul_left, mul-add}
use native.Mathlib.Decide.{dec_lt}
use do_logger.Buffer.RingBuffer.{RingBuffer, Event, slot, store_item, store_sequence}
use do_logger.Buffer.RingBuffer.Log.{}
use do_logger.Buffer.RingBuffer.Invariant.{
  Fits, Stage, claimed, emptied, published, ready, released, taking, vacant, written, FitsAt,
}

-- Two sequence numbers that share a slot are a whole capacity apart.
pub apart : (n p q : ℕ) → p % n ≡ q % n → p < q → p + n ≤ q
apart n p q e h = elim (dec_lt (p / n) (q / n)) [
  | yes a ↦ omega (
    arith,
    div-add-mod p n,
    div-add-mod q n,
    mul-le-mul_left {m = p / n + 1} {n = q / n} n (omega arith),
    mul-add n (p / n) 1,
    e,
  )
  | no a ↦ absurd (
      omega (
        arith,
        div-add-mod p n,
        div-add-mod q n,
        mul-le-mul_left {m = q / n} {n = p / n} n (omega arith),
        e,
      ))
]

pub apart_ne : (n p q : ℕ) → 2 ≤ n → p % n ≡ q % n → p + 1 ≢ q
apart_ne n p q two e h = omega (arith, apart n p q e (omega arith))

module _ {A : Type 0} (m k n : ℕ) (x : Option A) (p q : ℕ) where
  -- What no producer has claimed is vacant.
  pub Fits-vacant :
      (v : ℕ) (o : Option A) (s : Stage) → k ≤ m → m ≤ q → Fits m k n x q v o s → s ≡ vacant
  Fits-vacant v o vacant le h f = refl
  Fits-vacant v o (claimed t) le h f = absurd (omega arith)
  Fits-vacant v o (ready t) le h f = absurd (omega arith)
  Fits-vacant v o (written t) le h f = absurd (omega arith)
  Fits-vacant v o published le h f = absurd (omega arith)
  Fits-vacant v o (taking t) le h f = absurd (omega arith)
  Fits-vacant v o (emptied t) le h f = absurd (omega arith)
  Fits-vacant v o released le h f = absurd (omega arith)

  -- The producers' cursor passes `p`.
  pub Fits-claim :
      (v : ℕ) (o : Option A) (s : Stage)
      → m ≡ p
      → p ≢ q
      → Fits m k n x q v o s
      → Fits (p + 1) k n x q v o s
  Fits-claim v o vacant e ne f = (omega arith, f.1, f.2)
  Fits-claim v o (claimed t) e ne f = (omega arith, f.1, f.2, f.3)
  Fits-claim v o (ready t) e ne f = (omega arith, f.1, f.2, f.3)
  Fits-claim v o (written t) e ne f = (omega arith, f.1, f.2, f.3, f.4)
  Fits-claim v o published e ne f = (omega arith, f.1, f.2, f.3, f.4)
  Fits-claim v o (taking t) e ne f = f
  Fits-claim v o (emptied t) e ne f = f
  Fits-claim v o released e ne f = f

  -- The consumers' cursor passes `p`.
  pub Fits-pass :
      (v : ℕ) (o : Option A) (s : Stage)
      → k ≡ p
      → p ≢ q
      → Fits m k n x q v o s
      → Fits m (p + 1) n x q v o s
  Fits-pass v o vacant e ne f = f
  Fits-pass v o (claimed t) e ne f = (f.0, omega arith, f.2, f.3)
  Fits-pass v o (ready t) e ne f = (f.0, omega arith, f.2, f.3)
  Fits-pass v o (written t) e ne f = (f.0, omega arith, f.2, f.3, f.4)
  Fits-pass v o published e ne f = (f.0, omega arith, f.2, f.3, f.4)
  Fits-pass v o (taking t) e ne f = (omega arith, f.1, f.2, f.3)
  Fits-pass v o (emptied t) e ne f = (omega arith, f.1)
  Fits-pass v o released e ne f = (omega arith, f.1)

  -- A slot that shows `q + 1` before the consumers' cursor passes `q` is published.
  pub Fits-published :
      (v : ℕ) (o : Option A) (s : Stage)
      → 2 ≤ n
      → v ≡ q + 1
      → k ≤ q
      → Fits m k n x q v o s
      → s ≡ published
  Fits-published v o vacant two e le f = absurd (omega arith)
  Fits-published v o (claimed t) two e le f = absurd (omega arith)
  Fits-published v o (ready t) two e le f = absurd (omega arith)
  Fits-published v o (written t) two e le f = absurd (omega arith)
  Fits-published v o published two e le f = refl
  Fits-published v o (taking t) two e le f = absurd (omega arith)
  Fits-published v o (emptied t) two e le f = absurd (omega arith)
  Fits-published v o released two e le f = absurd (omega arith)

  -- The store of an item in a slot that its writer has waited for.
  pub Fits-store_item :
      (o o' : Option A) (s : Stage)
      → 2 ≤ n
      → p % n ≡ q % n
      → p ≢ q
      → (v : ℕ) → (v ≡ p) ⊎ (v ≡ p + 1)
      → Fits m k n x q v o s
      → Fits m k n x q v o' s
  Fits-store_item o o' vacant two e ne v h f = f
  Fits-store_item o o' (claimed t) two e ne v h f = f
  Fits-store_item o o' (ready t) two e ne v h f = f
  Fits-store_item o o' (written t) two e ne v h f = absurd (ground (arith, apart_ne n p q two e))
  Fits-store_item o o' published two e ne v h f =
      absurd (ground (arith, apart_ne n q p two (sym e)))
  Fits-store_item o o' (taking t) two e ne v h f =
      absurd (ground (arith, apart_ne n q p two (sym e)))
  Fits-store_item o o' (emptied t) two e ne v h f = f
  Fits-store_item o o' released two e ne v h f = f

  -- The store of `p + 1` by the writer of `p`.
  pub Fits-publish :
      (o o' : Option A) (s : Stage)
      → p % n ≡ q % n
      → p ≢ q
      → 2 ≤ n
      → (v : ℕ) → v ≡ p
      → Fits m k n x q v o s
      → Fits m k n x q (p + 1) o' s
  Fits-publish o o' vacant e ne two v h f = (f.0, omega arith, f.2)
  Fits-publish o o' (claimed t) e ne two v h f = (f.0, f.1, omega arith, f.3)
  Fits-publish o o' (ready t) e ne two v h f = absurd (omega arith)
  Fits-publish o o' (written t) e ne two v h f = absurd (ground arith)
  Fits-publish o o' published e ne two v h f = absurd (ground (arith, apart_ne n q p two (sym e)))
  Fits-publish o o' (taking t) e ne two v h f = absurd (ground (arith, apart_ne n q p two (sym e)))
  Fits-publish o o' (emptied t) e ne two v h f = absurd (ground (arith, apart_ne n q p two (sym e)))
  Fits-publish o o' released e ne two v h f = omega arith

  -- The store of `p + capacity` by the taker of `p`.
  pub Fits-release :
      (o o' : Option A) (s : Stage)
      → p % n ≡ q % n
      → p ≢ q
      → 2 ≤ n
      → (v : ℕ) → v ≡ p + 1
      → Fits m k n x q v o s
      → Fits m k n x q (p + n) o' s
  Fits-release o o' vacant e ne two v h f = (f.0, apart n p q e (omega arith), f.2)
  Fits-release o o' (claimed t) e ne two v h f = (f.0, f.1, apart n p q e (omega arith), f.3)
  Fits-release o o' (ready t) e ne two v h f = absurd (apart_ne n p q two e (sym h ∙ f.2))
  Fits-release o o' (written t) e ne two v h f = absurd (apart_ne n p q two e (sym h ∙ f.2))
  Fits-release o o' published e ne two v h f = absurd (ground arith)
  Fits-release o o' (taking t) e ne two v h f = absurd (ground arith)
  Fits-release o o' (emptied t) e ne two v h f = absurd (ground arith)
  Fits-release o o' released e ne two v h f = omega arith

module _ {A : Type 0} (r : RingBuffer A) (l : List (Event A)) (p q : ℕ) (s : Stage) where
  -- Sequence number `p` keeps its slot to itself, by the number that stands there.
  module _ (two : 2 ≤ r.capacity) (ne : p ≢ q) where
    pub FitsAt-store_item :
        (o : Option A)
        → ((slot r p).sequence ≡ p) ⊎ ((slot r p).sequence ≡ p + 1)
        → FitsAt r l q s
        → FitsAt (store_item r p o) l q s
    FitsAt-store_item o h f = elim (Bool-cases (p % r.capacity == q % r.capacity)) [
      | inl e ↦
          let same : p % r.capacity ≡ q % r.capacity = (==_iff _ _).0 e in
          rw e (
            Fits-store_item _ _ _ _ p q (slot r p).item o s two same ne (slot r p).sequence h
              (rw (same, slot) f))
      | inr e ↦ rw e f
    ]

    pub FitsAt-publish :
        (slot r p).sequence ≡ p → FitsAt r l q s → FitsAt (store_sequence r p (p + 1)) l q s
    FitsAt-publish h f = elim (Bool-cases (p % r.capacity == q % r.capacity)) [
      | inl e ↦
          let same : p % r.capacity ≡ q % r.capacity = (==_iff _ _).0 e in
          rw e (
            Fits-publish _ _ _ _ p q (slot r p).item (slot r p).item s same ne two
              (slot r p).sequence h (rw (same, slot) f))
      | inr e ↦ rw e f
    ]

    pub FitsAt-release :
        (slot r p).sequence ≡ p + 1
        → FitsAt r l q s
        → FitsAt (store_sequence r p (p + r.capacity)) l q s
    FitsAt-release h f = elim (Bool-cases (p % r.capacity == q % r.capacity)) [
      | inl e ↦
          let same : p % r.capacity ≡ q % r.capacity = (==_iff _ _).0 e in
          rw e (
            Fits-release _ _ _ _ p q (slot r p).item (slot r p).item s same ne two
              (slot r p).sequence h (rw (same, slot) f))
      | inr e ↦ rw e f
    ]
