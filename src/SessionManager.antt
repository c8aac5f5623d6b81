-- ===== src/SessionManager.antt =====
-- src/session-manager.ts: the class `SessionManager`, over the manager of the caches, whose adapter
-- it shares. The log is left out.
pub mod Transfer
use baileys_session_manager.Base.{
  ℕ, Bool, true, false, Option, none, some, List, [], ◌∷◌, map, ltb, if◌then◌else◌, Text,
}
use baileys_session_manager.Base.Exec.{Result, ok, error, Exec, pure, ◌>>=◌, ◌>>◌}
use baileys_session_manager.Base.Map.{Map, insert}
use baileys_session_manager.Adapter.{Adapter, SessionRecord, Entry}
use baileys_session_manager.Cache.Manager.{CacheManager, World, on_db, clear_session, clear_all}
use baileys_session_manager.Retention.{KeyRetentionOptions}
use baileys_session_manager.Retention

pub record SessionInfo : Type 0 where
  pub session_id : Text
  pub keys : List Text
  pub updated_at : ℕ

abbrev pub disabled_retention : KeyRetentionOptions
disabled_retention = record { enabled = false; max_age_ms_by_category = λ category. none }

unfoldable pub later_of : Option SessionRecord → ℕ → ℕ
later_of none updated_at = updated_at
later_of (some found) updated_at =
    if ltb updated_at found.updated_at then found.updated_at else updated_at

unfoldable pub with_value : Text → Option SessionRecord → List (Text × Text) → List (Text × Text)
with_value key none rest = rest
with_value key (some found) rest = (key, found.value) ∷ rest

-- `result[key] = value` for each pair.
unfoldable pub to_object : List (Text × Text) → Map Text → Map Text
to_object [] result = result
to_object ((key, value) ∷ rest) result = to_object rest (insert key value result)

-- `Object.entries(data).map(([key, value]) => ({ key, value }))`
unfoldable pub to_entries : Map Text → List Entry
to_entries [] = []
to_entries ((key, value) ∷ rest) = record { key = key; value = value } ∷ to_entries rest

module _ {D R : Type 0} (m : CacheManager D R) where
  unfoldable pub list_sessions : Exec (World D R) (List Text)
  list_sessions = on_db m.adapter.list_sessions

  -- The reads of `getSessionInfo`, one after the other.
  unfoldable pub newest : Text → List Text → ℕ → Exec (World D R) ℕ
  unfolding later_of
  newest session_id [] updated_at = pure updated_at
  newest session_id (key ∷ rest) updated_at = do
    found ← on_db (m.adapter.get session_id key)
    newest session_id rest (later_of found updated_at)

  describe : Text → Bool → Exec (World D R) (Option SessionInfo)
  unfolding newest
  describe session_id false = pure none
  describe session_id true = do
    keys ← on_db (m.adapter.get_all_keys session_id)
    updated_at ← newest session_id keys 0
    pure (some (record { session_id = session_id; keys = keys; updated_at = updated_at }))

  unfoldable pub get_session_info : Text → Exec (World D R) (Option SessionInfo)
  unfolding describe
  get_session_info session_id = do
    exists ← on_db (m.adapter.session_exists session_id)
    describe session_id exists

  unfoldable pub session_exists : Text → Exec (World D R) Bool
  session_exists session_id = on_db (m.adapter.session_exists session_id)

  unfoldable pub forget : Text → Exec (World D R) (Unit {0})
  forget session_id w = (ok tt, clear_session session_id w)

  unfoldable pub delete_session : Text → Exec (World D R) (Unit {0})
  unfolding forget
  delete_session session_id = do on_db (m.adapter.delete_session session_id); forget session_id

  -- The loop of `exportSession`, with all that it yields.
  unfoldable pub export_keys : Text → List Text → Exec (World D R) (List (Text × Text))
  unfolding with_value
  export_keys session_id [] = pure []
  export_keys session_id (key ∷ rest) = do
    found ← on_db (m.adapter.get session_id key)
    others ← export_keys session_id rest
    pure (with_value key found others)

  unfoldable pub export_session : Text → Exec (World D R) (List (Text × Text))
  export_session session_id = do
    keys ← on_db (m.adapter.get_all_keys session_id)
    export_keys session_id keys

  unfoldable pub export_session_to_object : Text → Exec (World D R) (Map Text)
  export_session_to_object session_id = do
    pairs ← export_session session_id
    pure (to_object pairs [])

  unfoldable pub import_session : Text → Map Text → Exec (World D R) (Unit {0})
  unfolding forget
  import_session session_id entries = do
    on_db (m.adapter.set_many session_id (to_entries entries))
    forget session_id

  -- The test is one for truth: an empty id counts as none.
  unfoldable pub clear_cache : Option Text → World D R → World D R
  clear_cache none w = clear_all w
  clear_cache (some []) w = clear_all w
  clear_cache (some (c ∷ session_id)) w = clear_session (c ∷ session_id) w

  unfoldable pub prune_expired_keys :
      Option KeyRetentionOptions → ℕ → Text → Exec (World D R) (List Text)
  prune_expired_keys none = Retention.prune_expired_keys m disabled_retention
  prune_expired_keys (some options) = Retention.prune_expired_keys m options
