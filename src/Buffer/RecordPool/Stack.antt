-- ===== src/Buffer/RecordPool/Stack.antt =====
-- Linked lists of indices, and how often an index stands in a list.
use do_logger.Prelude.{
  ℕ, zero, suc, ◌+◌, ◌≡◌, refl, ap, subst, ◌≢◌, inl, inr, false, ◌&&◌, Option, none, some, List, [],
  ◌∷◌, arith, ltb, leb, ◌==◌, if◌then◌else◌, Bool-cases, length,
}
use do_logger.Buffer.RecordPool.{update}

unfoldable pub count : ℕ → List ℕ → ℕ
count i [] = 0
count i (x ∷ xs) = if x == i then count i xs + 1 else count i xs

-- The list without the first occurrence.
unfoldable pub remove : ℕ → List ℕ → List ℕ
remove i [] = []
remove i (x ∷ xs) = if x == i then xs else x ∷ remove i xs

-- The list is what the links from an index on lead through.
abbrev pub IsChain : (ℕ → Option ℕ) → Option ℕ → List ℕ → Type 0
IsChain nexts h [] = h ≡ none
IsChain nexts h (i ∷ l) = (h ≡ some i) × IsChain nexts (nexts i) l

-- The numbers from one on, so many.
unfoldable pub from : ℕ → ℕ → List ℕ
from k zero = []
from k (suc m) = k ∷ from (k + 1) m

pub length-from : (k m : ℕ) → length (from k m) ≡ m
unfolding from
length-from k zero = refl
length-from k (suc m) = ap suc (length-from (k + 1) m)

pub count-from : (i k m : ℕ) → count i (from k m) ≡ (if leb k i && ltb i (k + m) then 1 else 0)
unfolding from count
count-from i k zero = ground arith
count-from i k (suc m) = ground (arith, count-from i (k + 1) m)

-- A link that is not on the way changes nothing.
pub IsChain-update :
    (nexts : ℕ → Option ℕ) (j : ℕ) (x h : Option ℕ) (l : List ℕ)
    → count j l ≡ 0
    → IsChain nexts h l
    → IsChain (update nexts j x) h l
unfolding count
IsChain-update nexts j x h [] c w = w
IsChain-update nexts j x h (i ∷ l) c w = elim (Bool-cases (i == j)) [
  | inl g ↦ absurd (ground arith)
  | inr g ↦ (
    w.0,
    (let g' : (j == i) ≡ false = ground arith in
        rw g' (IsChain-update nexts j x (nexts i) l (ground arith) w.1)),
  )
]

pub count-remove :
    (i j : ℕ) (l : List ℕ)
    → count j l ≢ 0
    → (if j == i then count i (remove j l) + 1 else count i (remove j l)) ≡ count i l
unfolding count remove
count-remove i j [] c = absurd (c refl)
count-remove i j (x ∷ l) c = ground (arith, count-remove i j l)

pub length-remove : (j : ℕ) (l : List ℕ) → count j l ≢ 0 → length (remove j l) + 1 ≡ length l
unfolding count remove
length-remove j [] c = absurd (c refl)
length-remove j (x ∷ l) c = ground (arith, length-remove j l)

pub top :
    (nexts : ℕ → Option ℕ) (h : Option ℕ) (i : ℕ) (l : List ℕ)
    → IsChain nexts h l
    → h ≡ some i
    → (rest : List ℕ) × (l ≡ i ∷ rest) × IsChain nexts (nexts i) rest
top nexts h i [] w e = absurd (cc)
top nexts h i (j ∷ l) w e =
    let q : j ≡ i = cc (w.0, e) in
    (l, ap (λ k. k ∷ l) q, subst (λ k. IsChain nexts (nexts k) l) q w.1)

pub no_head :
    (nexts : ℕ → Option ℕ) (h : Option ℕ) (l : List ℕ) → IsChain nexts h l → h ≡ none → l ≡ []
no_head nexts h [] w e = refl
no_head nexts h (j ∷ l) w e = cc (w.0, e)

pub no_stack :
    (nexts : ℕ → Option ℕ) (h : Option ℕ) (l : List ℕ) → IsChain nexts h l → length l ≡ 0 → h ≡ none
no_stack nexts h [] w e = w
no_stack nexts h (j ∷ l) w e = absurd (omega arith)
