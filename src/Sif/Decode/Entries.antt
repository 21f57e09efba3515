-- ===== src/Sif/Decode/Entries.antt =====
-- The fields that were encoded are read back one after another.
use do_logger.Prelude.{
  ok, ℕ, ◌+◌, ◌≤◌, ◌≡◌, refl, sym, ap, ◌∙◌, ◌≢◌, Bool, true, false, some, List, ◌∷◌, ◌++◌,
  append_assoc, arith, ltb, ◌==◌, length, take, drop, none, [], if◌then◌else◌, length-drop,
}
use do_logger.Prelude.Bytes.{le, drop-drop}
use do_logger.Record.Kv.{KvType, type_from_u8}
use do_logger.Record.Fields.{Record, put_slot}
use do_logger.Record.Tags.{Vendors, Name}
use do_logger.Sif.Names.{validate_name, register_vendor_tag}
use do_logger.Sif.Frame.{and_then, Entry, entry_bytes, entries_bytes}
use do_logger.Sif.Frame.Encoded.{if-ok, and_then-ok}
use do_logger.Sif.Decode.{read_entry, read_entries, has, put_wire_slot}
use do_logger.Sif.Decode.Reads.{read_small, get_byte-on, drop-on, fits}
use do_logger.Prelude.Bytes.{take-front}

raw : Entry → List ℕ
raw e = e.tag ∷ e.ty ∷ (le 2 (length e.name) ++ (le 4 (length e.value) ++ (e.name ++ e.value)))

record Encoded (e : Entry) (bytes : List ℕ) : Type 0 where
  bytes_eq : bytes ≡ raw e
  name_small : length e.name ≤ 1024
  value_small : length e.value ≤ 8388608

entry_bytes-Encoded : (e : Entry) (bytes : List ℕ) → entry_bytes e ≡ ok bytes → Encoded e bytes
unfolding entry_bytes raw
entry_bytes-Encoded e bytes p =
    let (n, p₁) = if-ok (ltb 1024 (length e.name)) _ _ bytes p in
    let (v, p₂) = if-ok (ltb 8388608 (length e.value)) _ _ bytes p₁ in
    let (_, p₃) = if-ok (ltb 65535 (length e.name)) _ _ bytes p₂ in
    let (_, p₄) = if-ok (ltb 4294967295 (length e.value)) _ _ bytes p₃ in
    record {
      bytes_eq = sym (cc p₄);
      name_small = ground (arith, n);
      value_small = ground (arith, v);
    }

validate_name-nonempty : (n : Name) → validate_name n ≡ true → (length n == 0) ≡ false
unfolding validate_name
validate_name-nonempty n v = ground arith

module _ (is_utf8 : List ℕ → Bool) where
  -- A field that a reader accepts, if its tag is new.
  pub record Accepted (e : Entry) : Type 0 where
    pub ty : KvType
    pub known : type_from_u8 e.ty ≡ some ty
    pub tagged : e.tag ≢ 0
    pub text : is_utf8 e.name ≡ true
    pub name : validate_name e.name ≡ true

  abbrev after : ℕ → Entry → ℕ
  after c e = c + 8 + length e.name + length e.value

  module _ (e : Entry) (c : ℕ) (tags l ys : List ℕ) (w : Accepted e) (n : length e.name ≤ 1024)
      (v : length e.value ≤ 8388608) (new_tag : has e.tag tags ≡ false) (p : drop c l ≡ raw e ++ ys)
      (b : c ≤ length l) where
    on : (k : ℕ) → drop (c + k) l ≡ drop k (raw e ++ ys)
    on k = drop-drop c k l ∙ ap (drop k) p

    eight : c + 8 ≤ length l
    unfolding raw
    eight =
        fits c 8 l (e.tag ∷ e.ty ∷ (le 2 (length e.name) ++ le 4 (length e.value)))
          ((e.name ++ e.value) ++ ys) p refl b

    on_name : drop (c + 8) l ≡ e.name ++ (e.value ++ ys)
    unfolding raw
    on_name = on 8 ∙ append_assoc e.name e.value ys

    on_value : drop (c + 8 + length e.name) l ≡ e.value ++ ys
    on_value = drop-on (c + 8) (length e.name) l e.name _ on_name refl

    name_fits : c + 8 + length e.name ≤ length l
    name_fits = fits (c + 8) (length e.name) l e.name _ on_name refl eight

    value_fits : after c e ≤ length l
    value_fits = fits (c + 8 + length e.name) (length e.value) l e.value ys on_value refl name_fits

    on_rest : drop (after c e) l ≡ ys
    on_rest = drop-on (c + 8 + length e.name) (length e.value) l e.value ys on_value refl

    read_entry-raw : read_entry is_utf8 l c tags ≡ ok (e, after c e)
    unfolding read_entry raw
    read_entry-raw =
        let e₁ = get_byte-on c e.tag l _ p in
        let e₂ = get_byte-on (c + 1) e.ty l _ (on 1) in
        let e₃ =
          read_small 2 (length e.name) (c + 2) l _ (on 2) (omega (arith, eight)) (omega arith) in
        let e₄ =
          read_small 4 (length e.value) (c + 4) l _ (on 4) (omega (arith, eight)) (omega arith) in
        let name : take (length e.name) (drop (c + 8) l) ≡ e.name =
          ap (take (length e.name)) on_name ∙ take-front (length e.name) e.name _ refl in
        let value : take (length e.value) (drop (c + 8 + length e.name) l) ≡ e.value =
          ap (take (length e.value)) on_value ∙ take-front (length e.value) e.value ys refl in
        let g₁ : (e.tag == 0) ≡ false = ground (arith, w.tagged) in
        let g₂ = validate_name-nonempty e.name w.name in
        let g₃ : ltb 1024 (length e.name) ≡ false = ground arith in
        let g₄ : ltb 8388608 (length e.value) ≡ false = ground arith in
        let g₅ : ltb (length l) (after c e) ≡ false = ground (arith, value_fits) in
        rw
          (
            e₁, e₂, w.known, and_then, e₃, e₄, g₁, new_tag, g₂, g₃, g₄, g₅, name, w.text, w.name,
            value,
          )
          refl

-- The fields put into a record in order.
unfoldable pub put_entry : Entry → Record → Record
put_entry e r = elim (type_from_u8 e.ty) [ none ↦ r | some t ↦ put_slot e.tag t e.value r ]

unfoldable pub put_all : List Entry → Record → Record
put_all [] r = r
put_all (e ∷ es) r = put_all es (put_entry e r)

-- No tag of the fields is among those read before or stands twice.
abbrev pub Fresh : List ℕ → List Entry → Type 0
Fresh tags [] = Unit
Fresh tags (e ∷ es) = (has e.tag tags ≡ false) × Fresh (e.tag ∷ tags) es

abbrev pub AllAccepted : (List ℕ → Bool) → List Entry → Type 0
AllAccepted is_utf8 [] = Unit
AllAccepted is_utf8 (e ∷ es) = Accepted is_utf8 e × AllAccepted is_utf8 es

put_wire_slot-put_entry :
    (is_utf8 : List ℕ → Bool) (e : Entry) (v : Vendors) (r : Record)
    → Accepted is_utf8 e
    → put_wire_slot v e.tag e.ty e.value r ≡ ok (put_entry e r)
unfolding put_wire_slot put_entry
put_wire_slot-put_entry is_utf8 e v r w =
    let g : (e.tag == 0) ≡ false = ground (arith, w.tagged) in
    rw (w.known, put_wire_slot, put_entry, g) refl

at_end : (c : ℕ) (l : List ℕ) → c ≤ length l → drop c l ≡ [] → c ≡ length l
at_end c l b p = let d = length-drop c l in let q = ap length p in omega (arith, d, q)

pub read_entries-entries_bytes :
    (is_utf8 : List ℕ → Bool) (es : List Entry) (bytes l tags : List ℕ) (c : ℕ) (v : Vendors)
    (r : Record)
    → entries_bytes es ≡ ok bytes
    → AllAccepted is_utf8 es
    → Fresh tags es
    → c ≤ length l
    → drop c l ≡ bytes
    → (read_entries is_utf8 l (length es) c tags v r).1 ≡ ok (length l, put_all es r)
unfolding entries_bytes read_entries put_all
read_entries-entries_bytes is_utf8 [] bytes l tags c v r e w f b p =
    ap (λ n. ok (n, r)) (at_end c l b (p ∙ sym (cc e)))
read_entries-entries_bytes is_utf8 (x ∷ es) bytes l tags c v r e w f b p =
    let (front, e₁, e₂) = and_then-ok (entry_bytes x) _ bytes e in
    let (back, e₃, e₄) = and_then-ok (entries_bytes es) _ bytes e₂ in
    let x' = entry_bytes-Encoded x front e₁ in
    let q : drop c l ≡ raw x ++ back = p ∙ sym (cc e₄) ∙ ap (λ l. l ++ back) x'.bytes_eq in
    let v' = if ltb 63 x.tag then register_vendor_tag x.name x.tag v else v in
    let next = after is_utf8 c x in
    let rest = on_rest is_utf8 x c tags l back w.0 x'.name_small x'.value_small f.0 q b in
    let fit = value_fits is_utf8 x c tags l back w.0 x'.name_small x'.value_small f.0 q b in
    rw
      (
        read_entry-raw is_utf8 x c tags l back w.0 x'.name_small x'.value_small f.0 q b,
        put_wire_slot-put_entry is_utf8 x v' r w.0,
        read_entries,
      )
      (read_entries-entries_bytes is_utf8 es back l (x.tag ∷ tags) next v' (put_entry x r) e₃ w.1
        f.1 fit rest)
