-- ===== src/Buffer/EmergencyBuffer/Recovery.antt =====
-- What `drain_all` recovers of the records that `push` wrote after `activate`.
use do_logger.Prelude.{
  ℕ, zero, suc, ◌+◌, ◌^◌, ◌≤◌, ◌<◌, ◌≡◌, refl, inl, inr, Bool, Option, List, [], ◌∷◌, map, arith,
  ltb, Bool-cases, length, length-append, ap, some, ◌∙◌, true, false, if◌then◌else◌,
}
use do_logger.Record.Fields.{Record, id_lo}
use do_logger.Buffer.EmergencyBuffer.{
  EmergencyBuffer, record_to_bytes, activate, ensure_cipher, started,
}
use do_logger.Buffer.EmergencyBuffer.Drain.{drain_loop, is_seen, drain_all, drain_file}
use do_logger.Buffer.EmergencyBuffer.Frames.{
  Frames, accept_payload-plaintext, before_oversize, extract_record_id-record_to_bytes,
  first_of_each, no_frames, one_frame, read_frame-frame, read_frame-oversize, spilled_size,
  read_frame_end,
}
use do_logger.Buffer.EmergencyBuffer.Pushes.{IsCipher}
use do_logger.Buffer.EmergencyBuffer.Spills.{Spills, Spills-Spilled}

-- Identifiers of a word, and payloads whose length is one.
pub data FitsWords (is_utf8 : List ℕ → Bool) (encrypts : Bool) : List Record → Type 0 where
  no_records : FitsWords is_utf8 encrypts []
  one_record :
      {r : Record} {rs : List Record}
      → id_lo r < 2 ^ 64
      → spilled_size is_utf8 encrypts r < 2 ^ 64
      → FitsWords is_utf8 encrypts rs
      → FitsWords is_utf8 encrypts (r ∷ rs)

record_to_bytes_long :
    (is_utf8 : List ℕ → Bool) (r : Record) → 0 < length (record_to_bytes is_utf8 r)
unfolding record_to_bytes
record_to_bytes_long is_utf8 r = omega arith

spilled_size_positive :
    (is_utf8 : List ℕ → Bool) (encrypts : Bool) (r : Record) → 0 < spilled_size is_utf8 encrypts r
unfolding spilled_size
spilled_size_positive is_utf8 encrypts r = ground (arith, record_to_bytes_long is_utf8 r)

module _ {Key : Type 0} (decrypt : Key → List ℕ → List ℕ → Option (List ℕ))
    (evict : List ℕ → List ℕ) (is_utf8 : List ℕ → Bool) (encrypts : Bool)
    (cipher : Option Key) where
  drain_loop-Frames :
      (n : ℕ) (seen : List ℕ) {rs : List Record} {bytes : List ℕ}
      → Frames decrypt is_utf8 encrypts cipher rs bytes
      → FitsWords is_utf8 encrypts rs
      → length bytes ≤ n
      → length seen + length rs ≤ 1000000
      → (drain_loop decrypt evict cipher n seen bytes).out
        ≡ map (record_to_bytes is_utf8) (first_of_each seen (before_oversize is_utf8 encrypts rs))
  unfolding drain_loop first_of_each before_oversize
  drain_loop-Frames zero seen no_frames w h m = refl
  drain_loop-Frames (suc n) seen no_frames w h m = rw (read_frame_end, drain_loop) refl
  drain_loop-Frames zero seen (one_frame r p e k fs) w h m = absurd (omega arith)
  drain_loop-Frames (suc n) seen (one_frame {rs} {rest} r p e k fs) (one_record i s w) h m =
      let l = length-append p rest in
      let pos = spilled_size_positive is_utf8 encrypts r in
      elim (Bool-cases (ltb 1048576 (spilled_size is_utf8 encrypts r))) [
        | inl g ↦ rw (read_frame-oversize p rest (ground arith) (omega arith), drain_loop, g) refl
        | inr g ↦
            let a =
              accept_payload-plaintext decrypt evict cipher p (record_to_bytes is_utf8 r) seen
                (id_lo r) e (extract_record_id-record_to_bytes is_utf8 r i) (omega arith) in
            elim (Bool-cases (is_seen (id_lo r) seen)) [
              | inl c ↦
                  rw
                    (
                      read_frame-frame p rest (omega arith) (ground arith),
                      drain_loop,
                      a,
                      c,
                      g,
                      first_of_each,
                      c,
                    )
                    (drain_loop-Frames n seen fs w (omega arith) (omega arith))
              | inr c ↦
                  rw
                    (
                      read_frame-frame p rest (omega arith) (ground arith),
                      drain_loop,
                      a,
                      c,
                      g,
                      first_of_each,
                      c,
                    )
                    (ap (λ t. record_to_bytes is_utf8 r ∷ t)
                      (drain_loop-Frames n (id_lo r ∷ seen) fs w (omega arith) (omega arith)))
            ]
      ]

module _ {Key : Type 0} where
  activated :
      (key : Key) (b : EmergencyBuffer Key)
      → b.active ≡ false
      → ((activate true key b).0.file ≡ some (record { bytes = []; position = 0 }))
        × ((activate true key b).0.audit_encryption ≡ b.audit_encryption)
        × ((activate true key b).0.seen_record_ids ≡ b.seen_record_ids)
  unfolding activate started ensure_cipher
  activated key b a =
      let e : (activate true key b).0 ≡ started key b = ap (λ x. (chosen x).0) a in
      (ap (λ b. b.file) e, ap (λ b. b.audit_encryption) e, ap (λ b. b.seen_record_ids) e)
    where
      chosen : Bool → EmergencyBuffer Key × Bool
      chosen x = if x then (b, true) else (started key b, true)

-- Recovery gives back what was spilled. The pushes follow an activation of a buffer that was not
-- active and remembers no identifiers, each of them reports that it wrote its record, they are at
-- most a million, and identifiers and lengths are of 64 bits; encryption is on or off, and AES-GCM
-- decrypts what it encrypted. Then `drain_all` hands over, in order, the bytes of the records up to
-- the first whose payload is over 1 MiB, less those whose low half of the identifier came before.
pub drain_all-push :
    {Key : Type 0} (encrypt decrypt : Key → List ℕ → List ℕ → Option (List ℕ))
    (evict : List ℕ → List ℕ) (is_utf8 : List ℕ → Bool) (key : Key) (b b' : EmergencyBuffer Key)
    (rs : List Record)
    → IsCipher encrypt decrypt
    → b.active ≡ false
    → b.seen_record_ids ≡ []
    → Spills encrypt is_utf8 (activate true key b).0 rs b'
    → length rs ≤ 1000000
    → FitsWords is_utf8 b.audit_encryption rs
    → (drain_all decrypt evict b').1
      ≡ map
          (record_to_bytes is_utf8)
          (first_of_each [] (before_oversize is_utf8 b.audit_encryption rs))
unfolding drain_all drain_file
drain_all-push encrypt decrypt evict is_utf8 key b b' rs g a s pushes m w =
    let (file, same, seen) = activated key b a in
    let x =
      Spills-Spilled encrypt decrypt is_utf8 g b.audit_encryption (activate true key b).0.cipher []
        (record { bytes = []; position = 0 }) pushes file refl same refl (seen ∙ s) in
    ap (λ f. (drain_file decrypt evict f b').1) x.written_file
    ∙ ap (λ bytes. (drain_loop decrypt evict b'.cipher (length bytes) b'.seen_record_ids bytes).out)
        x.grown
    ∙ ap (λ c. (drain_loop decrypt evict c (length x.frames) b'.seen_record_ids x.frames).out)
        x.same_cipher
    ∙ ap
        (λ s.
          (drain_loop decrypt evict (activate true key b).0.cipher (length x.frames) s
            x.frames).out)
        x.same_seen
    ∙ drain_loop-Frames decrypt evict is_utf8 b.audit_encryption (activate true key b).0.cipher
        (length x.frames) [] x.in_order w (omega arith) (omega arith)
