-- ===== src/Encryption/Aes/Roundtrip.antt =====
-- What `decrypt` makes of what `encrypt` returned.
use baileys_session_manager.Base.{
  ℕ, zero, suc, ◌≡◌, refl, sym, ap, ◌∙◌, true, [], ◌∷◌, ◌++◌, length, Text, starts_with,
  starts_with-append, arith, inl, inr,
}
use baileys_session_manager.Base.Exec.{ok, Result-cases}
use baileys_session_manager.Encryption.Aes.{
  Bytes, Crypto, Laws, take, drop, iv_length, tag_length, encrypted_prefix, resolve_key, encrypt,
  decrypt, is_encrypted, payload_of, open_payload,
}

take-append : (n : ℕ) (a b : Bytes) → length a ≡ n → take n (a ++ b) ≡ a
unfolding take
take-append zero [] b h = refl
take-append (suc n) [] b h = absurd (omega (arith, h))
take-append zero (x ∷ a) b h = absurd (omega (arith, h))
take-append (suc n) (x ∷ a) b h = ap (◌∷◌ x) (take-append n a b (omega (arith, h)))

drop-append : (n : ℕ) (a b : Bytes) → length a ≡ n → drop n (a ++ b) ≡ b
unfolding drop
drop-append zero [] b h = refl
drop-append (suc n) [] b h = absurd (omega (arith, h))
drop-append zero (x ∷ a) b h = absurd (omega (arith, h))
drop-append (suc n) (x ∷ a) b h = drop-append n a b (omega (arith, h))

module _ (c : Crypto) {IsText : Text → Type 0} (laws : Laws c IsText) where
  -- A payload of the three parts, taken apart again.
  open_payload-seal :
      (key iv : Bytes) (plaintext : Text)
      → IsText plaintext
      → length iv ≡ iv_length
      → open_payload c key (
          iv
          ++ ((c.seal key iv (c.from_utf8 plaintext)).1
              ++ (c.seal key iv (c.from_utf8 plaintext)).0))
        ≡ ok plaintext
  unfolding open_payload
  open_payload-seal key iv plaintext t l =
      let sealed = c.seal key iv (c.from_utf8 plaintext) in
      let tagged = laws.length-tag key iv (c.from_utf8 plaintext) in
      rw
        (
          open_payload,
          take-append iv_length iv (sealed.1 ++ sealed.0) l,
          drop-append iv_length iv (sealed.1 ++ sealed.0) l,
          take-append tag_length sealed.1 sealed.0 tagged,
          drop-append tag_length sealed.1 sealed.0 tagged,
          laws.unseal-seal key iv (c.from_utf8 plaintext),
          laws.to_utf8-from_utf8 plaintext t,
        )
        refl

  -- Over a cipher and encodings that keep their laws: a Unicode text that was encrypted is
  -- decrypted to itself with the same key, whatever the 12 random bytes are that the encryption
  -- drew, and the payload is told to be encrypted.
  pub decrypt-encrypt :
      (iv : Bytes) (plaintext key_input payload : Text)
      → IsText plaintext
      → length iv ≡ iv_length
      → encrypt c iv plaintext key_input ≡ ok payload
      → (decrypt c payload key_input ≡ ok plaintext) × (is_encrypted payload ≡ true)
  unfolding decrypt encrypt is_encrypted payload_of
  decrypt-encrypt iv plaintext key_input payload t l h =
      elim (Result-cases (resolve_key c key_input)) [
        | inr (e, bad) ↦ absurd (ground (arith, bad, h))
        | inl (key, good) ↦
            let body =
              iv
              ++ ((c.seal key iv (c.from_utf8 plaintext)).1
                  ++ (c.seal key iv (c.from_utf8 plaintext)).0) in
            let made : encrypted_prefix ++ c.to_base64 body ≡ payload = ground (arith, good, h) in
            let cut =
              ap (drop (length encrypted_prefix)) (sym made)
              ∙ drop-append (length encrypted_prefix) encrypted_prefix (c.to_base64 body) refl in
            let marked : starts_with encrypted_prefix payload ≡ true =
              ap (starts_with encrypted_prefix) (sym made)
              ∙ starts_with-append encrypted_prefix (c.to_base64 body) in
            let opened =
              ap (open_payload c key) (ap c.from_base64 cut ∙ laws.from_base64-to_base64 body)
              ∙ open_payload-seal key iv plaintext t l in
            (rw (marked, good) opened, marked)
      ]
