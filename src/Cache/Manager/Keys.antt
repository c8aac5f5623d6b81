-- ===== src/Cache/Manager/Keys.antt =====
-- The keys of the caches in cache-manager.ts.
use baileys_session_manager.Base.{
  ◌≡◌, ◌≢◌, [], ◌∷◌, ◌++◌, Text, text, All, append_separator-injective,
}
use mathlib.Core.List.{append_assoc}

-- `${sessionId}:${key}`
unfoldable pub cache_key : Text → Text → Text
cache_key session_id key = session_id ++ (text ":" ++ key)

-- No colon.
abbrev pub IsPlain : Text → Type 0
IsPlain = All (λ u. u ≢ b':')

-- Keys of different sessions, or of different rows of a session, do not meet in a cache, if no
-- session id has a colon.
pub cache_key-injective :
    (s t k j : Text) → IsPlain s → IsPlain t → cache_key s k ≡ cache_key t j → (s ≡ t) × (k ≡ j)
unfolding cache_key
cache_key-injective s t k j p q e = append_separator-injective b':' s t k j p q e

-- With a colon in a session id two sessions share cache keys: the key `k` of the session `s:t` is
-- cached under the same key as the key `t:k` of the session `s`.
pub cache_key_collision :
    (s t k : Text) → cache_key (s ++ (text ":" ++ t)) k ≡ cache_key s (t ++ (text ":" ++ k))
unfolding cache_key
cache_key_collision s t k = append_assoc s (text ":" ++ t) (text ":" ++ k)

pub cache_key-ne-nil : (s k : Text) → cache_key s k ≢ []
unfolding cache_key
cache_key-ne-nil [] k = λ e. cc
cache_key-ne-nil (u ∷ s) k = λ e. cc
