-- ===== src/Adapters/Realtime/Paths.antt =====
-- `escapeSegment` and `path` of firebase-realtime-adapter.ts.
use baileys_session_manager.Base.{
  ◌+◌, ◌<◌, ◌/◌, ◌%◌, ℕ, ◌≡◌, ◌≢◌, refl, ap, ap₂, ◌∙◌, true, false, Bool-cases, inl, inr, [], ◌∷◌,
  ◌++◌, All, Text, text, arith, append_separator-injective,
}
use baileys_session_manager.Adapters.Realtime.{
  is_disallowed, escape_char, escape_segment, session_path, path,
}

-- No tilde.
abbrev pub IsTildeFree : Text → Type 0
IsTildeFree = All (λ u. u ≢ b'~')

-- None of the characters that a path may not have.
abbrev pub IsAllowed : Text → Type 0
IsAllowed = All (λ u. is_disallowed u ≡ false)

digit : (d : ℕ) → d < 10 → is_disallowed (b'0' + d) ≡ false
unfolding is_disallowed
digit d small = ground arith

tilde : is_disallowed b'~' ≡ false
unfolding is_disallowed
tilde = refl

disallowed-lt : (u : ℕ) → is_disallowed u ≡ true → u < 100
unfolding is_disallowed
disallowed-lt u bad = ground arith

-- The characters of an escaped text are digits, tildes and others that need no escape.
escape_char-IsAllowed : (u : ℕ) (s : Text) → IsAllowed s → IsAllowed (escape_char u ++ s)
unfolding escape_char
escape_char-IsAllowed u s h = elim (Bool-cases (is_disallowed u)) [
  | inl bad ↦
      let tens = digit (u / 10) (omega (arith, disallowed-lt u bad)) in
      rw bad (tilde, (tens, (digit (u % 10) (omega arith), (tilde, h))))
  | inr fine ↦ rw fine (fine, h)
]

-- An escaped text has none of the characters that the database does not take.
pub escape_segment-IsAllowed : (s : Text) → IsAllowed (escape_segment s)
unfolding escape_segment
escape_segment-IsAllowed [] = tt
escape_segment-IsAllowed (u ∷ s) =
    escape_char-IsAllowed u (escape_segment s) (escape_segment-IsAllowed s)

-- A text without such a character is not changed.
pub escape_segment_allowed : (s : Text) → IsAllowed s → escape_segment s ≡ s
unfolding escape_segment escape_char
escape_segment_allowed [] h = refl
escape_segment_allowed (u ∷ s) (fine, h) = rw fine (ap (◌∷◌ u) (escape_segment_allowed s h))

pub escape_segment-injective :
    (s t : Text) → IsTildeFree s → IsTildeFree t → escape_segment s ≡ escape_segment t → s ≡ t
unfolding escape_segment escape_char
escape_segment-injective [] [] p q e = refl
escape_segment-injective [] (w ∷ t) p q e = elim (Bool-cases (is_disallowed w)) [
  | inl bad ↦ absurd (ground (arith, rw bad at e))
  | inr fine ↦ absurd (ground (arith, rw fine at e))
]
escape_segment-injective (u ∷ s) [] p q e = elim (Bool-cases (is_disallowed u)) [
  | inl bad ↦ absurd (ground (arith, rw bad at e))
  | inr fine ↦ absurd (ground (arith, rw fine at e))
]
escape_segment-injective (u ∷ s) (w ∷ t) p q e =
    ground (arith, escape_segment-injective s t p.1 q.1)

plain_slash : (s : Text) → IsAllowed s → All (λ u. u ≢ b'/') s
unfolding is_disallowed
plain_slash [] h = tt
plain_slash (u ∷ s) h = (ground (arith, h.0), plain_slash s h.1)

-- Two rows have one path only if they are one row, for session ids and keys without a tilde. A key
-- is not empty, as the path of the empty key is that of its session.
pub path-injective :
    (s t k j : Text)
    → IsTildeFree s
    → IsTildeFree t
    → IsTildeFree k
    → IsTildeFree j
    → k ≢ []
    → j ≢ []
    → path s k ≡ path t j
    → (s ≡ t) × (k ≡ j)
unfolding path session_path
path-injective s t [] j ps pt pk pj nk nj e = absurd (nk refl)
path-injective s t (u ∷ k) [] ps pt pk pj nk nj e = absurd (nj refl)
path-injective s t (u ∷ k) (w ∷ j) ps pt pk pj nk nj e =
    let (sessions, keys) =
      append_separator-injective b'/' (escape_segment s) (escape_segment t) (escape_segment (u ∷ k))
        (escape_segment (w ∷ j)) (plain_slash _ (escape_segment-IsAllowed s))
        (plain_slash _ (escape_segment-IsAllowed t)) cc in
    (escape_segment-injective s t ps pt sessions, escape_segment-injective _ _ pk pj keys)

pub escape_segment-ne-nil : (u : ℕ) (k : Text) → escape_segment (u ∷ k) ≢ []
unfolding escape_segment escape_char
escape_segment-ne-nil u k = elim (Bool-cases (is_disallowed u)) [
  | inl bad ↦ rw bad (λ e. cc)
  | inr fine ↦ rw fine (λ e. cc)
]

pub path_nonempty :
    (s k : Text) → k ≢ [] → path s k ≡ session_path s ++ (text "/" ++ escape_segment k)
unfolding path
path_nonempty s [] ne = absurd (ne refl)
path_nonempty s (u ∷ k) ne = refl

-- Escaping an escaped text changes nothing.
pub escape_segment_twice : (s : Text) → escape_segment (escape_segment s) ≡ escape_segment s
escape_segment_twice s = escape_segment_allowed (escape_segment s) (escape_segment-IsAllowed s)

-- The escaped form of a key has the path of the key, and likewise for session ids.
pub path-escape_segment : (s k : Text) → path (escape_segment s) (escape_segment k) ≡ path s k
unfolding path session_path escape_segment
path-escape_segment s [] = ap (λ t. text "baileys_sessions/" ++ t) (escape_segment_twice s)
path-escape_segment s (u ∷ k) =
    path_nonempty (escape_segment s) (escape_segment (u ∷ k)) (escape_segment-ne-nil u k)
    ∙ ap₂ (λ t j. text "baileys_sessions/" ++ (t ++ (text "/" ++ j))) (escape_segment_twice s)
        (escape_segment_twice (u ∷ k))
