-- ===== src/Factory.antt =====
-- src/factory.ts: the auth state over the cache manager. The lock is a parameter, as the two kinds
-- of lock are modelled on their own, and so is what Baileys does with the values.
pub mod Keys
pub mod Creds
use baileys_session_manager.Base.{
  ℕ, zero, suc, Bool, true, false, Option, none, some, List, [], ◌∷◌, ◌++◌, if◌then◌else◌, Text,
  text, text_eq, ◌==◌,
}
use baileys_session_manager.Base.Exec.{Result, ok, error, Exec, pure, ◌>>=◌, ◌>>◌}
use baileys_session_manager.Base.Map.{Map, insert}
use baileys_session_manager.Adapter.{Adapter, Entry}
use baileys_session_manager.Cache.Manager.{CacheManager, World, on_db, on_written}
use baileys_session_manager.Cache.Manager
use baileys_session_manager.Retention.{on_deleted_all, KeyRetentionOptions}
use baileys_session_manager.SessionManager
use baileys_session_manager.Encryption.Aes.{Crypto, Bytes, encrypt, decrypt}

-- What is taken from Baileys, JSON included: `V` is any value, and `is_set` tells which are truthy.
pub record Baileys (V : Type 0) : Type 0 where
  pub serialize : V → Text
  pub deserialize : Text → Result V
  pub is_set : V → Bool
  pub sync_key_from_object : V → V
  pub init_auth_creds : V

-- `options.encryption`
pub record EncryptionOptions : Type 0 where
  pub enabled : Bool
  pub key : Text

abbrev pub creds_key : Text
creds_key = text "creds"

-- A stored name, `${type}-${id}`.
unfoldable pub stored_name : Text → Text → Text
stored_name category id = category ++ (text "-" ++ id)

-- `if (raw)`: the empty text counts as none.
abbrev pub truthy : Option Text → Option Text
truthy none = none
truthy (some []) = none
truthy (some (u ∷ raw)) = some (u ∷ raw)

abbrev pub then_result : {A B : Type 0} → (A → Result B) → Result A → Result B
then_result f (error e) = error e
then_result f (ok a) = f a

-- A throw of the code between two awaits.
abbrev pub lift : {S A : Type 0} → Result A → Exec S A
lift r s = (r, s)

-- Which lock guards the session. `tcp_cache` is `redisAdapter instanceof RedisTcpCacheAdapter`.
pub data LockKind : Type 0 where
  distributed local : LockKind

unfoldable pub choose_lock : Bool → LockKind
choose_lock tcp_cache = if tcp_cache then distributed else local

-- The interval of the retention timer, if there is one. `auto_run` is `autoRunIntervalMs`.
unfoldable pub retention_interval : Option KeyRetentionOptions → Option ℕ → Option ℕ
retention_interval none auto_run = none
retention_interval (some options) none = none
retention_interval (some options) (some zero) = none
retention_interval (some options) (some (suc n)) = if options.enabled then some (suc n) else none

module _ {D R : Type 0} (m : CacheManager D R) where
  -- What the timer does each time: a pass that throws leaves a warning.
  unfoldable pub retention_tick :
      Option KeyRetentionOptions → ℕ → Text → Exec (World D R) (Unit {0})
  retention_tick retention now session_id w =
      (ok tt, (SessionManager.prune_expired_keys m retention now session_id w).1)

  -- `Promise.all(entries.map(entry => cache.onWritten(…, Date.now())))`
  unfoldable pub on_written_all : ℕ → Text → List Entry → Exec (World D R) (Unit {0})
  on_written_all now session_id [] = pure tt
  on_written_all now session_id (e ∷ rest) =
      on_written m now session_id e.key e.value now >> on_written_all now session_id rest

  module _ (with_lock : Text → Exec (World D R) (Unit {0}) → Exec (World D R) (Unit {0})) where
    -- What is done under the lock, also by a flush of the batcher.
    unfoldable pub write_entries : ℕ → Text → List Entry → Exec (World D R) (Unit {0})
    write_entries now session_id entries =
        with_lock session_id
          (do on_db (m.adapter.set_many session_id entries); on_written_all now session_id entries)

    unfoldable pub delete_entries : Text → List Text → Exec (World D R) (Unit {0})
    delete_entries session_id keys =
        with_lock session_id
          (do on_db (m.adapter.delete_many session_id keys); on_deleted_all m session_id keys)

    unfoldable pub write_some : ℕ → Text → List Entry → Exec (World D R) (Unit {0})
    write_some now session_id [] = pure tt
    write_some now session_id (e ∷ entries) = write_entries now session_id (e ∷ entries)

    unfoldable pub delete_some : Text → List Text → Exec (World D R) (Unit {0})
    delete_some session_id [] = pure tt
    delete_some session_id (key ∷ keys) = delete_entries session_id (key ∷ keys)

module _ {V : Type 0} (b : Baileys V) (c : Crypto) (encryption : Option EncryptionOptions) where
  -- `iv` is what the encryption draws.
  unfoldable pub encode : Bytes → V → Result Text
  encode iv value = elim encryption [
    | none ↦ ok (b.serialize value)
    | some options ↦ elim options.enabled [
      | true ↦ encrypt c iv (b.serialize value) options.key
      | false ↦ ok (b.serialize value)
    ]
  ]

  unfoldable pub decode : Text → Result V
  decode raw = elim encryption [
    | none ↦ b.deserialize raw
    | some options ↦ elim options.enabled [
      | true ↦ then_result b.deserialize (decrypt c raw options.key)
      | false ↦ b.deserialize raw
    ]
  ]

  -- What `keys.set` collects: the entries and the deletions.
  abbrev pub Changes : Type 0
  Changes = List Entry × List Text

  -- The step for one id of a bucket: `none` is a value that is null or undefined.
  change : Bytes → Text → Option V → Changes → Result Changes
  change iv stored none (entries, deletions) = ok (entries, deletions ++ stored ∷ [])
  change iv stored (some value) (entries, deletions) =
      if b.is_set value
      then then_result (λ raw. ok (entries ++ record { key = stored; value = raw } ∷ [], deletions))
          (encode iv value)
      else ok (entries, deletions ++ stored ∷ [])

  -- The two `for` loops over the buckets, whose pairs are listed in the order of `for … in`; `ivs`
  -- is what the encryptions to come draw.
  unfoldable pub collect_bucket :
      (ℕ → Bytes) → ℕ → Text → List (Text × Option V) → Changes → Result (ℕ × Changes)
  unfolding change
  collect_bucket ivs n category [] changes = ok (n, changes)
  collect_bucket ivs n category ((id, value) ∷ rest) changes =
      then_result (collect_bucket ivs (suc n) category rest)
        (change (ivs n) (stored_name category id) value changes)

  unfoldable pub collect :
      (ℕ → Bytes) → ℕ → List (Text × List (Text × Option V)) → Changes → Result Changes
  collect ivs n [] changes = ok changes
  collect ivs n ((category, bucket) ∷ rest) changes =
      then_result (λ r. collect ivs r.0 rest r.1) (collect_bucket ivs n category bucket changes)

  module _ {D R : Type 0} (m : CacheManager D R)
      (with_lock : Text → Exec (World D R) (Unit {0}) → Exec (World D R) (Unit {0})) where
    -- `loadCreds`. `now` and `later` are the times of the read.
    unfoldable pub load_creds : ℕ → ℕ → Text → Exec (World D R) V
    load_creds now later session_id = do
      raw ← Manager.get m now later session_id creds_key
      elim (truthy raw) [ none ↦ pure b.init_auth_creds | some text' ↦ lift (decode text') ]

    sync_key : Text → V → V
    sync_key category value =
        if text_eq category (text "app-state-sync-key")
        then (if b.is_set value then b.sync_key_from_object value else value)
        else value

    -- `keys.get`: the ids one after the other, where the code reads them at the same time.
    unfoldable pub keys_get : ℕ → ℕ → Text → Text → List Text → Map V → Exec (World D R) (Map V)
    unfolding sync_key
    keys_get now later session_id category [] found = pure found
    keys_get now later session_id category (id ∷ ids) found = do
      raw ← Manager.get m now later session_id (stored_name category id)
      elim (truthy raw) [
        | none ↦ keys_get now later session_id category ids found
        | some text' ↦ (do
          value ← lift (decode text')
          keys_get now later session_id category ids (insert id (sync_key category value) found))
      ]

    -- `keys.set`, without the buckets that are undefined.
    unfoldable pub keys_set :
        (ℕ → Bytes) → ℕ → Text → List (Text × List (Text × Option V)) → Exec (World D R) (Unit {0})
    unfolding write_some delete_some
    keys_set ivs now session_id data' = do
      changes ← lift (collect ivs 0 data' ([], []))
      write_some m with_lock now session_id changes.0
      delete_some m with_lock session_id changes.1

    -- The start: the database is opened, and the credentials are loaded.
    unfoldable pub use_hybrid_auth_state : ℕ → ℕ → Text → Exec (World D R) V
    unfolding load_creds
    use_hybrid_auth_state now later session_id = do
      on_db m.adapter.init
      load_creds now later session_id

    -- What becomes of the promise of a `write` whose flush has ended: with a debounce, one whose
    -- flush throws is never settled, which is `none`.
    abbrev pub awaited : ℕ → Result (Unit {0}) × World D R → Option (Result (Unit {0})) × World D R
    awaited debounce_ms (ok u, w) = (some (ok u), w)
    awaited debounce_ms (error e, w) = (if debounce_ms == 0 then some (error e) else none, w)

    -- `saveCreds`, alone: the flush that its `write` awaits hands over the credentials, since
    -- nothing else is written through the batcher, and the `flushNow` after it finds nothing.
    -- `now` is the time of the flush.
    unfoldable pub save_creds :
        ℕ → Bytes → ℕ → Text → V → World D R → Option (Result (Unit {0})) × World D R
    save_creds debounce_ms iv now session_id creds w = elim (encode iv creds) [
      | error e ↦ (some (error e), w)
      | ok raw ↦ awaited debounce_ms (
          write_entries m with_lock now session_id (record { key = creds_key; value = raw } ∷ []) w)
    ]

    -- `close`, with what the batcher has pending.
    unfoldable pub close : ℕ → Text → List Entry → Exec (World D R) (Unit {0})
    unfolding write_some
    close now session_id pending = write_some m with_lock now session_id pending >> Manager.close m
