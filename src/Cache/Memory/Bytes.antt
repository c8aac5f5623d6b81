-- ===== src/Cache/Memory/Bytes.antt =====
-- `Buffer.byteLength(value, 'utf8')` over UTF-16 code units: a surrogate pair takes four bytes, and
-- a lone surrogate the three of the replacement character.
use baileys_session_manager.Base.{
  ℕ, ◌+◌, ◌*◌, ◌≤◌, Bool, ◌&&◌, [], ◌∷◌, ltb, leb, if◌then◌else◌, length, Text, arith,
}

unit_bytes : ℕ → ℕ
unit_bytes u = if ltb u 0x80 then 1 else if ltb u 0x800 then 2 else 3

is_high : ℕ → Bool
is_high u = leb 0xd800 u && ltb u 0xdc00

is_low : ℕ → Bool
is_low u = leb 0xdc00 u && ltb u 0xe000

unfoldable pub byte_length : Text → ℕ
unfolding unit_bytes is_high is_low
byte_length [] = 0
byte_length (u ∷ []) = unit_bytes u
byte_length (u ∷ w ∷ s) =
    let pair = 4 + byte_length s in
    let single = unit_bytes u + byte_length (w ∷ s) in
    if is_high u && is_low w then pair else single

-- A text takes between one and three bytes for each code unit.
pub byte_length_bounds : (s : Text) → (length s ≤ byte_length s) × (byte_length s ≤ 3 * length s)
unfolding byte_length
byte_length_bounds [] = omega arith
byte_length_bounds (u ∷ []) = ground arith
byte_length_bounds (u ∷ w ∷ s) = ground (arith, byte_length_bounds s, byte_length_bounds (w ∷ s))
