-- ===== src/Prelude/Bytes.antt =====
-- Little-endian integers as bytes: `to_le_bytes`, `from_le_bytes`, and the slices they are read
-- from.
use native.Mathlib.Nat.{pow-suc}
use mathlib.Core.List.{List, [], ◌∷◌, ◌++◌}
use do_logger.Prelude.{
  ℕ, zero, suc, ◌+◌, ◌*◌, ◌/◌, ◌%◌, ◌^◌, ◌<◌, ◌≡◌, refl, sym, ap, subst, ◌∙◌, arith, length, take,
  drop, ◌≤◌,
}

-- `n.to_le_bytes()` at a width in bytes.
abbrev pub le : ℕ → ℕ → List ℕ
le zero n = []
le (suc w) n = n % 256 ∷ le w (n / 256)

abbrev pub from_le : List ℕ → ℕ
from_le [] = 0
from_le (b ∷ bs) = b + 256 * from_le bs

pub length-le : (w n : ℕ) → length (le w n) ≡ w
length-le zero n = refl
length-le (suc w) n = ap suc (length-le w (n / 256))

pub from_le-le : (w n : ℕ) → n < 256 ^ w → from_le (le w n) ≡ n
from_le-le zero n h = omega arith
from_le-le (suc w) n h = omega (arith, pow-suc 256 w, from_le-le w (n / 256))

module _ {ℓ} {A : Type ℓ} where
  pub drop-append : (xs ys : List A) → drop (length xs) (xs ++ ys) ≡ ys
  drop-append [] ys = refl
  drop-append (x ∷ xs) ys = drop-append xs ys

  pub take-append : (xs ys : List A) → take (length xs) (xs ++ ys) ≡ xs
  take-append [] ys = refl
  take-append (x ∷ xs) ys = rw (take-append xs ys)

  -- Two concatenations whose first parts are equally long agree part by part.
  pub append_inj :
      (xs ys us vs : List A) → length xs ≡ length ys → xs ++ us ≡ ys ++ vs → (xs ≡ ys) × (us ≡ vs)
  append_inj [] [] us vs h e = (refl, e)
  append_inj [] (y ∷ ys) us vs h e = absurd (omega arith)
  append_inj (x ∷ xs) [] us vs h e = absurd (omega arith)
  append_inj (x ∷ xs) (y ∷ ys) us vs h e =
      let (a, b) = append_inj xs ys us vs (omega arith) (cc e) in (cc, b)

module _ {ℓ} {A : Type ℓ} where
  pub drop-nil : (n : ℕ) → drop {A = A} n [] ≡ []
  drop-nil zero = refl
  drop-nil (suc n) = refl

  pub drop-drop : (m n : ℕ) (xs : List A) → drop (m + n) xs ≡ drop n (drop m xs)
  drop-drop zero n xs = ap (λ k. drop k xs) (omega arith)
  drop-drop (suc m) n [] = drop-nil (suc m + n) ∙ sym (drop-nil n)
  drop-drop (suc m) n (x ∷ xs) =
      let e : suc m + n ≡ suc (m + n) = omega arith in
      ap (λ k. drop k (x ∷ xs)) e ∙ drop-drop m n xs

  pub drop-before : (n : ℕ) (xs ys : List A) → n ≤ length xs → drop n (xs ++ ys) ≡ drop n xs ++ ys
  drop-before zero xs ys h = refl
  drop-before (suc n) [] ys h = absurd (omega arith)
  drop-before (suc n) (x ∷ xs) ys h = drop-before n xs ys (omega arith)

  pub drop-all : (xs : List A) → drop (length xs) xs ≡ []
  drop-all [] = refl
  drop-all (x ∷ xs) = drop-all xs

module _ {ℓ} {A : Type ℓ} where
  -- The first part of a concatenation, and the second, by the first's length.
  pub take-front : (n : ℕ) (xs ys : List A) → length xs ≡ n → take n (xs ++ ys) ≡ xs
  take-front n xs ys h = subst (λ n. take n (xs ++ ys) ≡ xs) h (take-append xs ys)

  pub drop-front : (n : ℕ) (xs ys : List A) → length xs ≡ n → drop n (xs ++ ys) ≡ ys
  drop-front n xs ys h = subst (λ n. drop n (xs ++ ys) ≡ ys) h (drop-append xs ys)

-- Equal bytes are of equal numbers.
pub le_inj : (w m n : ℕ) → m < 256 ^ w → n < 256 ^ w → le w m ≡ le w n → m ≡ n
le_inj w m n a b e = sym (from_le-le w m a) ∙ ap from_le e ∙ from_le-le w n b
