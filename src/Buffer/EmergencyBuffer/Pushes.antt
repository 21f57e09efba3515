-- ===== src/Buffer/EmergencyBuffer/Pushes.antt =====
-- A call of `push` that writes its record: what it appends, and that this opens again.
use mathlib.Core.Option.{some-injective}
use do_logger.Prelude.{
  ℕ, ◌+◌, ◌≡◌, refl, inl, inr, Bool, Option, List, ◌∷◌, arith, ltb, length, length-append, ap, some,
  ◌++◌, sym, ◌≢◌, ◌||◌, leb, ◌∙◌, true, false, not, none, if◌then◌else◌, Option-cases, subst, ◌&&◌,
}
use do_logger.Prelude.Bytes.{le, drop-front, take-front}
use do_logger.Prelude.Words.{wrap_add64}
use do_logger.Record.Fields.{Record}
use do_logger.Buffer.EmergencyBuffer.{
  EmergencyBuffer, SpillFile, record_to_bytes, Outcome, all_written, failed_after, push, write_at,
  write_frame, written, error_written, made, payload_of, Payload, dropped, fails, not_active,
  panics, encrypted_payload, write_payload, is_audit_level, sealed_with,
}
use do_logger.Buffer.EmergencyBuffer.Drain.{plaintext_of}
use do_logger.Buffer.EmergencyBuffer.Frames.{spilled_size}

error_written≢written : error_written ≢ written
error_written≢written e = cc

not_active≢written : not_active ≢ written
not_active≢written e = cc

dropped≢written : dropped ≢ written
dropped≢written e = cc

-- The buffer after a payload that was written whole.
module _ {Key : Type 0} where
  unfoldable pub appended : SpillFile → List ℕ → EmergencyBuffer Key → EmergencyBuffer Key
  appended f payload b = record b {
    file = some (write_at f (le 8 (length payload) ++ payload));
    record_count = wrap_add64 b.record_count 1;
    byte_count = wrap_add64 b.byte_count (length payload + 8);
    total_spilled = wrap_add64 b.total_spilled 1;
  }

  write_frame-written :
      (outcome : Outcome) (payload : List ℕ) (b b' : EmergencyBuffer Key) (f : SpillFile)
      → write_frame (some f) outcome payload b ≡ (b', written)
      → b' ≡ appended f payload b
  unfolding write_frame appended
  write_frame-written all_written payload b b' f e = sym (ap (λ t. t.0) e)
  write_frame-written (failed_after k) payload b b' f e =
      absurd (error_written≢written (ap (λ t. t.1) e))

-- What a call of `push` that writes its record has written.
module _ {Key : Type 0} where
  write_payload-written :
      (payload : Payload) (outcome : Outcome) (b b' : EmergencyBuffer Key) (f : SpillFile)
      → b.file ≡ some f
      → write_payload payload outcome b ≡ some (b', written)
      → (p : List ℕ) × (payload ≡ made p) × (b' ≡ appended f p b)
  unfolding write_payload
  write_payload-written panics outcome b b' f h e = absurd cc
  write_payload-written fails outcome b b' f h e =
      absurd (error_written≢written (ap (λ t. t.1) (some-injective _ _ e)))
  write_payload-written (made p) outcome b b' f h e =
      let w = ap (λ o. write_frame o outcome p b) (sym h) ∙ some-injective _ _ e in
      (p, refl, write_frame-written outcome p b b' f w)

not_skipped {ℓ} :
    {A : Type ℓ} (active full : Bool) (u v x y : A)
    → u ≢ y
    → v ≢ y
    → (if not active then u else if full then v else x) ≡ y
    → x ≡ y
not_skipped false full u v x y h k e = absurd (h e)
not_skipped true true u v x y h k e = absurd (k e)
not_skipped true false u v x y h k e = e

module _ {Key : Type 0} (encrypt : Key → List ℕ → List ℕ → Option (List ℕ))
    (is_utf8 : List ℕ → Bool) where
  pub push-written :
      (nonce : List ℕ) (outcome : Outcome) (r : Record) (b b' : EmergencyBuffer Key) (f : SpillFile)
      → b.file ≡ some f
      → push encrypt is_utf8 nonce outcome r b ≡ some (b', written)
      → (p : List ℕ) × (payload_of encrypt is_utf8 nonce r b ≡ made p) × (b' ≡ appended f p b)
  unfolding push
  push-written nonce outcome r b b' f h e =
      write_payload-written (payload_of encrypt is_utf8 nonce r b) outcome b b' f h (
        not_skipped b.active (leb b.max_records b.record_count || leb b.max_bytes b.byte_count)
          (some (b, not_active))
          (some (record b { total_dropped = wrap_add64 b.total_dropped 1 }, dropped)) _ _
          (λ i. not_active≢written (ap (λ t. t.1) (some-injective _ _ i)))
          (λ i. dropped≢written (ap (λ t. t.1) (some-injective _ _ i))) e)

-- What AES-GCM does: a ciphertext is the length of the text and of the tag, and decrypts again.
pub record IsCipher {Key : Type 0} (encrypt decrypt : Key → List ℕ → List ℕ → Option (List ℕ))
    : Type 0 where
  pub longer :
      (key : Key) (nonce m c : List ℕ) → encrypt key nonce m ≡ some c → length c ≡ length m + 16
  pub again :
      (key : Key) (nonce m c : List ℕ)
      → length nonce ≡ 12
      → encrypt key nonce m ≡ some c
      → decrypt key nonce c ≡ some m

fails≢made : {p : List ℕ} → fails ≢ made p
fails≢made e = cc

made_inj : {p q : List ℕ} → made p ≡ made q → p ≡ q
made_inj e = cc

module _ {Key : Type 0} (encrypt decrypt : Key → List ℕ → List ℕ → Option (List ℕ))
    (is_utf8 : List ℕ → Bool) (g : IsCipher encrypt decrypt) where
  opens_encrypted :
      (key : Key) (nonce m c : List ℕ)
      → length nonce ≡ 12
      → encrypt key nonce m ≡ some c
      → plaintext_of decrypt (some key) (255 ∷ nonce ++ c) ≡ some m
  unfolding plaintext_of
  opens_encrypted key nonce m c h e =
      let n = g.longer key nonce m c e in
      let a = length-append nonce c in
      let s : ltb (length (255 ∷ nonce ++ c)) 29 ≡ false = ground arith in
      rw (s, take-front 12 nonce c h, drop-front 12 nonce c h) (g.again key nonce m c h e)

  encrypted_opens :
      (cipher : Option Key) (nonce m p : List ℕ)
      → length nonce ≡ 12
      → encrypted_payload encrypt cipher nonce m ≡ made p
      → (plaintext_of decrypt cipher p ≡ some m) × (length p ≡ 29 + length m)
  unfolding encrypted_payload sealed_with
  encrypted_opens none nonce m p h e = absurd cc
  encrypted_opens (some key) nonce m p h e = elim (Option-cases (encrypt key nonce m)) [
    | inl c ↦ absurd (fails≢made (subst (λ o. sealed_with nonce o ≡ made p) c e))
    | inr (ct, c) ↦
        let q : 255 ∷ nonce ++ ct ≡ p = made_inj (subst (λ o. sealed_with nonce o ≡ made p) c e) in
        let l = length-append nonce ct in
        let n = g.longer key nonce m ct c in
        subst (λ p. (plaintext_of decrypt (some key) p ≡ some m) × (length p ≡ 29 + length m)) q
          (opens_encrypted key nonce m ct h c, omega arith)
  ]

  plain_opens :
      (cipher : Option Key) (r : Record)
      → plaintext_of decrypt cipher (record_to_bytes is_utf8 r) ≡ some (record_to_bytes is_utf8 r)
  unfolding plaintext_of record_to_bytes
  plain_opens cipher r = refl

  chosen_opens :
      (encrypted : Bool) (cipher : Option Key) (nonce p : List ℕ) (r : Record)
      → length nonce ≡ 12
      → (if encrypted
          then encrypted_payload encrypt cipher nonce (record_to_bytes is_utf8 r)
          else made (record_to_bytes is_utf8 r))
        ≡ made p
      → (plaintext_of decrypt cipher p ≡ some (record_to_bytes is_utf8 r))
        × (length p ≡ (
            if encrypted
            then 29 + length (record_to_bytes is_utf8 r)
            else length (record_to_bytes is_utf8 r)))
  chosen_opens true cipher nonce p r h e =
      encrypted_opens cipher nonce (record_to_bytes is_utf8 r) p h e
  chosen_opens false cipher nonce p r h e =
      let q = made_inj e in
      (
        subst (λ p. plaintext_of decrypt cipher p ≡ some (record_to_bytes is_utf8 r)) q
            (plain_opens cipher r),
        ap length (sym q),
      )

  -- A payload opens again, and is as long as the record's spilled size.
  pub payload_opens :
      (nonce p : List ℕ) (r : Record) (b : EmergencyBuffer Key)
      → length nonce ≡ 12
      → payload_of encrypt is_utf8 nonce r b ≡ made p
      → (plaintext_of decrypt b.cipher p ≡ some (record_to_bytes is_utf8 r))
        × (length p ≡ spilled_size is_utf8 b.audit_encryption r)
  unfolding payload_of spilled_size
  payload_opens nonce p r b h e =
      chosen_opens (b.audit_encryption && is_audit_level r.level) b.cipher nonce p r h e
