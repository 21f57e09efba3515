-- ===== src/Sif/Decode/Reads.antt =====
-- What is read at a position of a frame whose bytes from there on are known.
use do_logger.Prelude.{
  ok, ℕ, zero, suc, ◌+◌, ◌^◌, ◌≤◌, ◌<◌, ◌≡◌, refl, ap, ◌∙◌, true, some, List, [], ◌∷◌, ◌++◌, arith,
  leb, length, get_elem?, length-append, drop, length-drop,
}
use do_logger.Prelude.Bytes.{take-front, drop-front, le, from_le, from_le-le, length-le, drop-drop}
use do_logger.Sif.Frame.{read}
use do_logger.Sif.Decode.{get_byte, read_array}

module _ {ℓ} {A : Type ℓ} where
  -- The list holds the two parts from the position on.
  pub drop-on :
      (o n : ℕ) (l xs ys : List A) → drop o l ≡ xs ++ ys → length xs ≡ n → drop (o + n) l ≡ ys
  drop-on o n l xs ys e h = drop-drop o n l ∙ ap (drop n) e ∙ drop-front n xs ys h

  pub fits :
      (o n : ℕ) (l xs ys : List A)
      → drop o l ≡ xs ++ ys
      → length xs ≡ n
      → o ≤ length l
      → o + n ≤ length l
  fits o n l xs ys e h b =
      let d = length-drop o l in
      let a = length-append xs ys in let f = ap length e in omega (arith, d, a, f, h)

pub read_any :
    (w n o : ℕ) (l ys : List ℕ)
    → drop o l ≡ le w n ++ ys
    → o ≤ length l
    → read w l o ≡ ok (from_le (le w n))
unfolding read
read_any w n o l ys e b =
    let f = fits o w l (le w n) ys e (length-le w n) b in
    let g : leb (o + w) (length l) ≡ true = ground arith in
    rw (g, e, take-front w (le w n) ys (length-le w n)) refl

pub read_small :
    (w n o : ℕ) (l ys : List ℕ)
    → drop o l ≡ le w n ++ ys
    → o ≤ length l
    → n < 256 ^ w
    → read w l o ≡ ok n
read_small w n o l ys e b s = read_any w n o l ys e b ∙ ap ok (from_le-le w n s)

pub read_array-on :
    (n o : ℕ) (l xs ys : List ℕ)
    → drop o l ≡ xs ++ ys
    → length xs ≡ n
    → o ≤ length l
    → read_array n l o ≡ ok xs
unfolding read_array
read_array-on n o l xs ys e h b =
    let f = fits o n l xs ys e h b in
    let g : leb (o + n) (length l) ≡ true = ground arith in rw (g, e, take-front n xs ys h) refl

get_elem?-drop : (o b : ℕ) (l ys : List ℕ) → drop o l ≡ b ∷ ys → get_elem? l o ≡ some b
get_elem?-drop zero b [] ys e = cc
get_elem?-drop zero b (x ∷ l) ys e = cc
get_elem?-drop (suc o) b [] ys e = cc
get_elem?-drop (suc o) b (x ∷ l) ys e = get_elem?-drop o b l ys e

pub get_byte-on : (o b : ℕ) (l ys : List ℕ) → drop o l ≡ b ∷ ys → get_byte l o ≡ ok b
unfolding get_byte
get_byte-on o b l ys e = rw (get_elem?-drop o b l ys e, get_byte) refl
