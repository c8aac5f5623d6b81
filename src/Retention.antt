-- ===== src/Retention.antt =====
-- src/retention.ts: the category of a stored key, and the pass that deletes stale keys.
pub mod Categories
pub mod Resolution
pub mod Pruning
use baileys_session_manager.Base.{
  ℕ, ◌+◌, Bool, true, false, ◌&&◌, not, Option, none, some, List, [], ◌∷◌, leb, if◌then◌else◌, keep,
  Text, text_eq,
}
use baileys_session_manager.Base.Exec.{Result, ok, error, Exec, pure, ◌>>=◌, ◌>>◌}
use baileys_session_manager.Base.Map.{Map, lookup}
use baileys_session_manager.Adapter.{Adapter, SessionRecord}
use baileys_session_manager.Cache.Manager.{CacheManager, World, on_db, on_deleted}
use Categories.{Category, resolve_category, creds_key}

-- `KeyRetentionOptions`, but for the interval of the timer.
pub record KeyRetentionOptions : Type 0 where
  pub enabled : Bool
  pub max_age_ms_by_category : Category → Option ℕ

unfoldable pub configured : KeyRetentionOptions → Option Category → Bool
configured options none = false
configured options (some category) = elim (options.max_age_ms_by_category category) [
  | none ↦ false
  | some age ↦ true
]

-- The test of the `filter`.
unfoldable pub is_candidate : KeyRetentionOptions → Text → Bool
unfolding configured
is_candidate options key =
    if text_eq key creds_key then false else configured options (resolve_category key)

-- `now - record.updatedAt >= maxAgeMs`, over the integers.
unfoldable pub aged : ℕ → SessionRecord → Option ℕ → Bool
aged now found none = false
aged now found (some max_age_ms) = leb (found.updated_at + max_age_ms) now

unfoldable pub aged_in : KeyRetentionOptions → ℕ → SessionRecord → Option Category → Bool
unfolding aged
aged_in options now found none = false
aged_in options now found (some category) = aged now found (options.max_age_ms_by_category category)

-- Does the body of the loop push the key, for the record that was found under it?
unfoldable pub is_stale : KeyRetentionOptions → ℕ → Text → Option SessionRecord → Bool
unfolding aged_in
is_stale options now key none = false
is_stale options now key (some found) = aged_in options now found (resolve_category key)

unfoldable pub stale_keys : KeyRetentionOptions → ℕ → Map SessionRecord → List Text → List Text
stale_keys options now records = keep (λ key. is_stale options now key (lookup key records))

module _ {D R : Type 0} (m : CacheManager D R) where
  -- `Promise.all(staleKeys.map(key => cache.onDeleted(sessionId, key)))`
  unfoldable pub on_deleted_all : Text → List Text → Exec (World D R) (Unit {0})
  on_deleted_all session_id [] = pure tt
  on_deleted_all session_id (key ∷ rest) =
      on_deleted m session_id key >> on_deleted_all session_id rest

  delete_stale : Text → List Text → Exec (World D R) (List Text)
  delete_stale session_id [] = pure []
  delete_stale session_id (key ∷ rest) = do
    on_db (m.adapter.delete_many session_id (key ∷ rest))
    on_deleted_all session_id (key ∷ rest)
    pure (key ∷ rest)

  check_candidates : KeyRetentionOptions → ℕ → Text → List Text → Exec (World D R) (List Text)
  unfolding delete_stale
  check_candidates options now session_id [] = pure []
  check_candidates options now session_id (key ∷ rest) = do
    records ← on_db (m.adapter.get_many session_id (key ∷ rest))
    delete_stale session_id (stale_keys options now records (key ∷ rest))

  -- `now` is read after the records. The result is `prunedKeys`.
  unfoldable pub prune_expired_keys : KeyRetentionOptions → ℕ → Text → Exec (World D R) (List Text)
  unfolding check_candidates
  prune_expired_keys options now session_id =
      if options.enabled
      then (do
        all_keys ← on_db (m.adapter.get_all_keys session_id)
        check_candidates options now session_id (keep (is_candidate options) all_keys))
      else pure []
