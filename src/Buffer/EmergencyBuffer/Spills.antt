-- ===== src/Buffer/EmergencyBuffer/Spills.antt =====
-- The spill file after a run of calls of `push` that all write their record.
use do_logger.Prelude.{
  ℕ, ◌+◌, ◌≡◌, refl, Bool, Option, List, [], ◌∷◌, length, length-append, ap, some, ◌++◌, sym, ◌∙◌,
  subst, append-nil, append_assoc, take, drop,
}
use do_logger.Prelude.Bytes.{le, drop-all, drop-drop, drop-nil}
use do_logger.Record.Fields.{Record}
use do_logger.Buffer.EmergencyBuffer.{
  EmergencyBuffer, SpillFile, record_to_bytes, Outcome, push, write_at, written,
}
use do_logger.Buffer.EmergencyBuffer.Drain.{plaintext_of, plaintext_of}
use do_logger.Buffer.EmergencyBuffer.Frames.{Frames, no_frames, one_frame, spilled_size}
use do_logger.Buffer.EmergencyBuffer.Pushes.{IsCipher, push-written, appended, payload_opens}

-- A run of calls of `push` that all write their record; the nonces are random.
module _ {Key : Type 0} (encrypt : Key → List ℕ → List ℕ → Option (List ℕ))
    (is_utf8 : List ℕ → Bool) where
  pub data Spills : EmergencyBuffer Key → List Record → EmergencyBuffer Key → Type 0 where
    no_spills : {b : EmergencyBuffer Key} → Spills b [] b
    one_spill :
        {b b' b'' : EmergencyBuffer Key} {rs : List Record} (r : Record) (nonce : List ℕ)
        (outcome : Outcome)
        → length nonce ≡ 12
        → push encrypt is_utf8 nonce outcome r b ≡ some (b', written)
        → Spills b' rs b''
        → Spills b (r ∷ rs) b''

take_all : (xs : List ℕ) → take (length xs) xs ≡ xs
take_all [] = refl
take_all (x ∷ xs) = ap (λ t. x ∷ t) (take_all xs)

write_at_end :
    (f : SpillFile) (bytes : List ℕ)
    → f.position ≡ length f.bytes
    → ((write_at f bytes).bytes ≡ f.bytes ++ bytes)
      × ((write_at f bytes).position ≡ length (write_at f bytes).bytes)
unfolding write_at
write_at_end f bytes h =
    let t : take f.position f.bytes ≡ f.bytes =
      subst (λ n. take n f.bytes ≡ f.bytes) (sym h) (take_all f.bytes) in
    let d : drop (f.position + length bytes) f.bytes ≡ [] =
      subst (λ n. drop (n + length bytes) f.bytes ≡ []) (sym h)
        (drop-drop (length f.bytes) (length bytes) f.bytes
          ∙ ap (drop (length bytes)) (drop-all f.bytes)
          ∙ drop-nil (length bytes)) in
    let e : (write_at f bytes).bytes ≡ f.bytes ++ bytes =
      ap (λ z. z ++ (bytes ++ drop (f.position + length bytes) f.bytes)) t
      ∙ ap (λ z. f.bytes ++ (bytes ++ z)) d
      ∙ ap (λ z. f.bytes ++ z) (append-nil bytes) in
    (e, ap (λ n. n + length bytes) h ∙ sym (ap length e ∙ length-append f.bytes bytes))

-- The file after such a run, and what the run leaves as it was.
pub record Spilled {Key : Type 0} (decrypt : Key → List ℕ → List ℕ → Option (List ℕ))
    (is_utf8 : List ℕ → Bool) (encrypts : Bool) (cipher : Option Key) (seen : List ℕ)
    (rs : List Record) (before : List ℕ) (b : EmergencyBuffer Key) : Type 0 where
  pub frames : List ℕ
  pub spill_file : SpillFile
  pub written_file : b.file ≡ some spill_file
  pub grown : spill_file.bytes ≡ before ++ frames
  pub in_order : Frames decrypt is_utf8 encrypts cipher rs frames
  pub same_cipher : b.cipher ≡ cipher
  pub same_seen : b.seen_record_ids ≡ seen

module _ {Key : Type 0} (encrypt decrypt : Key → List ℕ → List ℕ → Option (List ℕ))
    (is_utf8 : List ℕ → Bool) (g : IsCipher encrypt decrypt) where
  pub Spills-Spilled :
      (encrypts : Bool) (cipher : Option Key) (seen : List ℕ) {rs : List Record}
      {b b' : EmergencyBuffer Key} (f : SpillFile)
      → Spills encrypt is_utf8 b rs b'
      → b.file ≡ some f
      → f.position ≡ length f.bytes
      → b.audit_encryption ≡ encrypts
      → b.cipher ≡ cipher
      → b.seen_record_ids ≡ seen
      → Spilled decrypt is_utf8 encrypts cipher seen rs f.bytes b'
  unfolding appended
  Spills-Spilled encrypts cipher seen f no_spills h k a c s = record {
    frames = [];
    spill_file = f;
    written_file = h;
    grown = sym (append-nil f.bytes);
    in_order = no_frames;
    same_cipher = c;
    same_seen = s;
  }
  Spills-Spilled encrypts cipher seen {b = b} f (one_spill {b' = b'} r nonce outcome n e more) h k a
        c s =
      let (p, made_p, q) = push-written encrypt is_utf8 nonce outcome r b b' f h e in
      let payload = le 8 (length p) ++ p in
      let x = write_at_end f payload k in
      let (o, l) = payload_opens encrypt decrypt is_utf8 g nonce p r b n made_p in
      let rest =
        Spills-Spilled encrypts cipher seen (write_at f payload) more (ap (λ b. b.file) q) x.1
          (ap (λ b. b.audit_encryption) q ∙ a) (ap (λ b. b.cipher) q ∙ c)
          (ap (λ b. b.seen_record_ids) q ∙ s) in
      record {
        frames = le 8 (length p) ++ (p ++ rest.frames);
        spill_file = rest.spill_file;
        written_file = rest.written_file;
        grown =
            rest.grown
            ∙ ap (λ z. z ++ rest.frames) x.0
            ∙ append_assoc f.bytes payload rest.frames
            ∙ ap (λ z. f.bytes ++ z) (append_assoc (le 8 (length p)) p rest.frames);
        in_order =
            one_frame r p
              (subst (λ c. plaintext_of decrypt c p ≡ some (record_to_bytes is_utf8 r)) c o)
              (subst (λ a. length p ≡ spilled_size is_utf8 a r) a l) rest.in_order;
        same_cipher = rest.same_cipher;
        same_seen = rest.same_seen;
      }
