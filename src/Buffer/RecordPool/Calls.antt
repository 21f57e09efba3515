-- ===== src/Buffer/RecordPool/Calls.antt =====
-- The pool when no call interrupts another: whatever is allocated, freed and written, in any order.
use do_logger.Prelude.Words.{wrap_add64}
use do_logger.Prelude.{
  ℕ, zero, suc, ◌+◌, ◌≡◌, refl, ap, subst, ◌≢◌, inl, inr, none, some, List, [], ◌∷◌, arith, ltb,
  ◌==◌, if◌then◌else◌, Bool-cases, length, Bool, true, false, sym, ◌∙◌, Option-cases, ◌<◌, ◌↔◌, ◌%◌,
  ◌^◌, ◌≤◌,
}
use do_logger.Record.Fields.{Record, new, reset}
use do_logger.Buffer.RecordPool.{RecordPool, alloc, free, fresh, new_pool, update}
use do_logger.Buffer.RecordPool.Stack.{
  IsChain, IsChain-update, count, count-from, count-remove, from, length-from, length-remove,
  no_head, no_stack, remove, top,
}

-- The pools that calls can lead to, with the records that are handed out. A caller frees and writes
-- a record that it was handed and has not given back, and leaves its `pool_index` as it is.
pub data Run (n : ℕ) : RecordPool → List ℕ → Type 0 where
  created : {p : RecordPool} → new_pool n ≡ some p → Run n p []
  allocated :
      {p p' : RecordPool} {held : List ℕ} (i : ℕ)
      → Run n p held
      → alloc p ≡ (p', some i)
      → Run n p' (i ∷ held)
  freed :
      {p p' : RecordPool} {held held' : List ℕ} (ptr : ℕ)
      → Run n p held
      → count ptr held ≢ 0
      → free ptr p ≡ some p'
      → held' ≡ remove ptr held
      → Run n p' held'
  wrote :
      {p p' : RecordPool} {held : List ℕ} (ptr : ℕ) (r : Record)
      → Run n p held
      → count ptr held ≢ 0
      → r.pool_index ≡ (p.records ptr).pool_index
      → p' ≡ record p { records = update p.records ptr r }
      → Run n p' held

-- Every index is once on the free stack or handed out; the records on the stack are blank.
pub record IsSound (n : ℕ) (p : RecordPool) (held : List ℕ) : Type 0 where
  pub capacity : p.capacity ≡ n
  pub stack : List ℕ
  pub chain : IsChain p.nexts p.head stack
  pub once : (i : ℕ) → count i stack + count i held ≡ (if ltb i n then 1 else 0)
  pub size : length stack + length held ≡ n
  pub index : (i : ℕ) → i < n → (p.records i).pool_index ≡ i
  pub blank : (i : ℕ) → count i stack ≢ 0 → p.records i ≡ new i

from-IsChain :
    (n k m : ℕ) → k + m ≡ n → IsChain (fresh n).nexts (if ltb k n then some k else none) (from k m)
unfolding from fresh
from-IsChain n k zero e = ground arith
from-IsChain n k (suc m) e = (ground arith, from-IsChain n (k + 1) m (omega arith))

fresh-IsSound : (n : ℕ) → n ≤ 2 ^ 32 → ltb 0 n ≡ true → IsSound n (fresh n) []
unfolding fresh count
fresh-IsSound n small g = record {
  capacity = refl;
  stack = from 0 n;
  chain =
      subst (λ b. IsChain (fresh n).nexts (if b then some 0 else none) (from 0 n)) g
        (from-IsChain n 0 n (omega arith));
  once = λ i. ground (arith, count-from i 0 n);
  size = omega (arith, length-from 0 n);
  index = λ i lt. omega arith;
  blank = λ i c.
      let lt : i < n = ground (arith, count-from i 0 n) in
      let e : i % 2 ^ 32 ≡ i = omega arith in ap new e;
}

if-some :
    {A : Type 0} (b : Bool) (x y : A) → (if b then some x else none) ≡ some y → (b ≡ true) × (x ≡ y)
if-some true x y e = (refl, cc)
if-some false x y e = cc

new_pool-IsSound : (n : ℕ) (p : RecordPool) → n ≤ 2 ^ 32 → new_pool n ≡ some p → IsSound n p []
unfolding new_pool
new_pool-IsSound n p small e =
    let (g, q) = if-some (ltb 0 n) (fresh n) p e in
    subst (λ p. IsSound n p []) q (fresh-IsSound n small g)

-- What `alloc` does when it returns a record.
abbrev popped : RecordPool → ℕ → RecordPool
popped p i = record p { head = p.nexts i; alloc_count = wrap_add64 p.alloc_count 1 }

pub alloc-some :
    (p p' : RecordPool) (i : ℕ) → alloc p ≡ (p', some i) → (p.head ≡ some i) × (popped p i ≡ p')
unfolding alloc
alloc-some p p' i e = elim (Option-cases p.head) [
  | inl h ↦
      let a : (alloc p).1 ≡ none = rw (h, alloc) refl in
      let bad : none ≡ some i = sym a ∙ ap (λ x. x.1) e in cc bad
  | inr h ↦
      let a : alloc p ≡ (popped p h.0, some h.0) = rw (h.1, alloc) refl in
      let q = sym a ∙ e in
      let j : some h.0 ≡ some i = ap (λ x. x.1) q in
      let k : h.0 ≡ i = cc in (h.1 ∙ j, sym (ap (popped p) k) ∙ ap (λ x. x.0) q)
]

-- What `free` does to the pool.
abbrev pushed : RecordPool → ℕ → RecordPool
pushed p j = record p {
  records = update p.records j (reset (p.records j));
  nexts = update p.nexts j p.head;
  head = some j;
  free_count = wrap_add64 p.free_count 1;
}

alloc-head : (p : RecordPool) → (alloc p).1 ≡ p.head
unfolding alloc
alloc-head p = elim (Option-cases p.head) [
  | inl h ↦ rw (h, alloc) refl ∙ sym h
  | inr h ↦ rw (h.1, alloc) refl ∙ sym h.1
]

module _ (n : ℕ) where
  allocated-IsSound :
      (p p' : RecordPool) (held : List ℕ) (i : ℕ)
      → IsSound n p held
      → alloc p ≡ (p', some i)
      → IsSound n p' (i ∷ held)
  unfolding count
  allocated-IsSound p p' held i s e =
      let (h, q) = alloc-some p p' i e in
      let (rest, same, chain) = top p.nexts p.head i s.stack s.chain h in
      subst (λ p. IsSound n p (i ∷ held)) q
        (record {
          capacity = s.capacity;
          stack = rest;
          chain = chain;
          once = λ k. ground (arith, s.once k, ap (count k) same);
          size = omega (arith, s.size, ap length same);
          index = s.index;
          blank = λ k c. s.blank k (ground (arith, ap (count k) same));
        })

  pushed-IsSound :
      (p : RecordPool) (held : List ℕ) (ptr : ℕ)
      → IsSound n p held
      → count ptr held ≢ 0
      → IsSound n (pushed p ptr) (remove ptr held)
  unfolding count reset
  pushed-IsSound p held ptr s c =
      let g : (ptr == ptr) ≡ true = ground arith in
      let in_pool : ptr < n = ground (arith, s.once ptr) in
      let off : count ptr s.stack ≡ 0 = ground (arith, s.once ptr) in
      record {
        capacity = s.capacity;
        stack = ptr ∷ s.stack;
        chain = (refl, (rw g (IsChain-update p.nexts ptr p.head p.head s.stack off s.chain)));
        once = λ k. ground (arith, s.once k, count-remove k ptr held c);
        size = omega (arith, s.size, length-remove ptr held c);
        index = λ i lt. elim (Bool-cases (ptr == i)) [
          | inl e ↦ rw e (s.index ptr in_pool ∙ ground arith)
          | inr e ↦ rw e (s.index i lt)
        ];
        blank = λ i c'. elim (Bool-cases (ptr == i)) [
          | inl e ↦ let q : ptr ≡ i = ground arith in rw e (ap new (s.index ptr in_pool ∙ q))
          | inr e ↦ rw e (s.blank i (ground arith))
        ];
      }

  freed-IsSound :
      (p p' : RecordPool) (held : List ℕ) (ptr : ℕ)
      → IsSound n p held
      → count ptr held ≢ 0
      → free ptr p ≡ some p'
      → IsSound n p' (remove ptr held)
  unfolding free
  freed-IsSound p p' held ptr s c e =
      let (_, q) = if-some (ltb (p.records ptr).pool_index p.capacity) _ p' e in
      subst (λ p. IsSound n p (remove ptr held)) q
        (subst (λ j. IsSound n (pushed p j) (remove ptr held))
          (sym (s.index ptr (ground (arith, s.once ptr)))) (pushed-IsSound p held ptr s c))

  wrote-IsSound :
      (p : RecordPool) (held : List ℕ) (ptr : ℕ) (r : Record)
      → IsSound n p held
      → count ptr held ≢ 0
      → r.pool_index ≡ (p.records ptr).pool_index
      → IsSound n (record p { records = update p.records ptr r }) held
  wrote-IsSound p held ptr r s c e = record {
    capacity = s.capacity;
    stack = s.stack;
    chain = s.chain;
    once = s.once;
    size = s.size;
    index = λ i lt. elim (Bool-cases (ptr == i)) [
      | inl g ↦
          let q : ptr ≡ i = ground arith in rw g (e ∙ s.index ptr (ground (arith, s.once ptr)) ∙ q)
      | inr g ↦ rw g (s.index i lt)
    ];
    blank = λ i c'. elim (Bool-cases (ptr == i)) [
      | inl g ↦
          let q : ptr ≡ i = ground arith in
          absurd (ground (arith, s.once i, ap (λ k. count k held) q))
      | inr g ↦ rw g (s.blank i c')
    ];
  }

  Run-IsSound : (p : RecordPool) (held : List ℕ) → n ≤ 2 ^ 32 → Run n p held → IsSound n p held
  Run-IsSound p held small (created e) = new_pool-IsSound n p small e
  Run-IsSound p' held' small (allocated {p = p} {held = held} i w e) =
      allocated-IsSound p p' held i (Run-IsSound p held small w) e
  Run-IsSound p' held' small (freed {p = p} {held = held} ptr w c e q) =
      subst (IsSound n p') (sym q) (freed-IsSound p p' held ptr (Run-IsSound p held small w) c e)
  Run-IsSound p' held small (wrote {p = p} ptr r w c e q) =
      subst (λ p. IsSound n p held) (sym q)
        (wrote-IsSound p held ptr r (Run-IsSound p held small w) c e)

  -- While no call begins before the one before it has ended, by one thread or by several: in every
  -- pool of a positive capacity of at most 2 ^ 32 that calls lead to, `alloc` returns no record
  -- exactly if as many records are handed out as the pool has; a record that it returns is one of
  -- the pool's, is not handed out, and is blank, as `Record::new` makes it. A caller gives back and
  -- writes only records that it was handed and has not given back, and keeps their index.
  pub alloc_exact :
      (p : RecordPool) (held : List ℕ)
      → n ≤ 2 ^ 32
      → Run n p held
      → (((alloc p).1 ≡ none) ↔ (length held ≡ n))
        × ((i : ℕ) → (alloc p).1 ≡ some i → (i < n) × (count i held ≡ 0) × (p.records i ≡ new i))
  unfolding count
  alloc_exact p held small w =
      let s = Run-IsSound p held small w in
      let a = alloc-head p in
      (
        (
          λ e.
              let q = ap length (no_head p.nexts p.head s.stack s.chain (sym a ∙ e)) in
              omega (arith, s.size, q),
          λ e. a ∙ no_stack p.nexts p.head s.stack s.chain (omega (arith, s.size)),
        ),
        λ i e.
            let (rest, same, _) = top p.nexts p.head i s.stack s.chain (sym a ∙ e) in
            let q = ap (count i) same in
            let at_least : count i s.stack ≢ 0 = ground arith in
            (ground (arith, s.once i), ground (arith, s.once i), s.blank i at_least),
      )
