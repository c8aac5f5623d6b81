-- ===== src/Encryption/Aes.antt =====
-- src/encryption/aes.ts: `encrypt`, `decrypt`, `isEncrypted` and the choice of the key's format.
-- The cipher and the encodings belong to Node and are the record `Crypto`; the random bytes that a
-- call draws are an argument.
pub mod Roundtrip
use baileys_session_manager.Base.{
  ℕ, zero, suc, ◌≡◌, Bool, true, false, ◌&&◌, ◌||◌, Option, none, some, List, [], ◌∷◌, ◌++◌, ◌==◌,
  leb, length, if◌then◌else◌, Text, text, starts_with,
}
use baileys_session_manager.Base.Exec.{Result, ok, error}

-- A `Buffer`.
abbrev pub Bytes : Type 0
Bytes = List ℕ

abbrev pub iv_length : ℕ
iv_length = 12

abbrev pub tag_length : ℕ
tag_length = 16

abbrev pub key_length : ℕ
key_length = 32

abbrev pub encrypted_prefix : Text
encrypted_prefix = text "enc:v1:"

-- `Buffer.from` and `toString` in each encoding, and the cipher: `seal key iv bytes` is the
-- ciphertext with its tag, and `unseal key iv tag bytes` fails where `final` throws.
pub record Crypto : Type 0 where
  pub from_hex : Text → Bytes
  pub from_base64 : Text → Bytes
  pub to_base64 : Bytes → Text
  pub from_utf8 : Text → Bytes
  pub to_utf8 : Bytes → Text
  pub seal : Bytes → Bytes → Bytes → Bytes × Bytes
  pub unseal : Bytes → Bytes → Bytes → Bytes → Result Bytes

-- The documented behaviour of these calls. UTF-8 loses what is not Unicode text, so `IsText` tells
-- which strings it keeps.
pub record Laws (c : Crypto) (IsText : Text → Type 0) : Type 0 where
  pub from_base64-to_base64 : (b : Bytes) → c.from_base64 (c.to_base64 b) ≡ b
  pub to_utf8-from_utf8 : (t : Text) → IsText t → c.to_utf8 (c.from_utf8 t) ≡ t
  pub unseal-seal :
      (key iv bytes : Bytes)
      → c.unseal key iv (c.seal key iv bytes).1 (c.seal key iv bytes).0 ≡ ok bytes
  pub length-tag : (key iv bytes : Bytes) → length (c.seal key iv bytes).1 ≡ tag_length

-- `b.subarray(0, n)` and `b.subarray(n)`
unfoldable pub take : ℕ → Bytes → Bytes
take zero b = []
take (suc n) [] = []
take (suc n) (x ∷ b) = x ∷ take n b

unfoldable pub drop : ℕ → Bytes → Bytes
drop zero b = b
drop (suc n) [] = []
drop (suc n) (x ∷ b) = drop n b

between : ℕ → ℕ → ℕ → Bool
between low high unit = leb low unit && leb unit high

-- `[0-9a-fA-F]`
is_hex_digit : ℕ → Bool
unfolding between
is_hex_digit unit = between 48 57 unit || (between 97 102 unit || between 65 70 unit)

are_hex_digits : Text → Bool
unfolding is_hex_digit
are_hex_digits [] = true
are_hex_digits (unit ∷ rest) = is_hex_digit unit && are_hex_digits rest

-- `/^[0-9a-fA-F]{64}$/.test(key)`
unfoldable pub is_hex_key : Text → Bool
unfolding are_hex_digits
is_hex_key key = length key == 64 && are_hex_digits key

module _ (c : Crypto) where
  unfoldable pub decode_key : Text → Bytes
  decode_key key = if is_hex_key key then c.from_hex key else c.from_base64 key

  -- The message of the error goes without the length that it names.
  unfoldable pub resolve_key : Text → Result Bytes
  unfolding decode_key
  resolve_key key =
      if length (decode_key key) == key_length
      then ok (decode_key key)
      else error (text "Encryption key must be exactly 32 bytes once decoded")

  unfoldable pub payload_of : Bytes → Bytes × Bytes → Text
  payload_of iv (ciphertext, auth_tag) =
      encrypted_prefix ++ c.to_base64 (iv ++ (auth_tag ++ ciphertext))

  -- `iv` is what `randomBytes(IV_LENGTH)` returned.
  unfoldable pub encrypt : Bytes → Text → Text → Result Text
  unfolding payload_of
  encrypt iv plaintext key_input = elim (resolve_key key_input) [
    | error e ↦ error e
    | ok key ↦ ok (payload_of iv (c.seal key iv (c.from_utf8 plaintext)))
  ]

  unfoldable pub open_payload : Bytes → Bytes → Result Text
  unfolding take drop
  open_payload key raw =
      elim (c.unseal key (take iv_length raw) (take tag_length (drop iv_length raw))
        (drop tag_length (drop iv_length raw))) [
          | error e ↦ error e
          | ok plaintext ↦ ok (c.to_utf8 plaintext)
        ]

  unfoldable pub decrypt : Text → Text → Result Text
  unfolding open_payload
  decrypt payload key_input =
      if starts_with encrypted_prefix payload
      then elim (resolve_key key_input) [
        | error e ↦ error e
        | ok key ↦ open_payload key (c.from_base64 (drop (length encrypted_prefix) payload))
      ]
      else error (
          text
            "Value does not look like it was encrypted by this package (missing enc:v1: prefix).")

unfoldable pub is_encrypted : Text → Bool
is_encrypted payload = starts_with encrypted_prefix payload
