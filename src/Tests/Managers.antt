-- ===== src/Tests/Managers.antt =====
-- The cache manager over the SQLite adapter at concrete inputs, with a Redis that is a map.
use baileys_session_manager.Base.{
  ℕ, suc, ◌+◌, ◌≡◌, ◌≢◌, ◌⊎◌, ◌↔◌, refl, ap, sym, inl, inr, Bool, true, false, ◌&&◌, Option, none,
  some, List, [], ◌∷◌, ◌++◌, Text, text, text_eq, text_eq_iff, text_eq_refl, arith, if◌then◌else◌,
}
use baileys_session_manager.Base.Exec.{◌>>=◌, ok}
use baileys_session_manager.Base.Map.{Map, lookup, insert, remove, lookup-insert, lookup-remove}
use baileys_session_manager.Cache.Memory
use baileys_session_manager.Cache.Memory.{MemoryCache, CacheEntry, Versioned, create}
use baileys_session_manager.Cache.Memory.Invariant.{IsValid}
use baileys_session_manager.Cache.Redis
use baileys_session_manager.Cache.Redis.{Redis, Mode, tcp, http}
use baileys_session_manager.Cache.Manager.{
  CacheManager, World, cache_key, get, on_written, IsPlain, cache_key-injective,
  cache_key_collision,
}
use baileys_session_manager.Cache.Manager.Writes.{get-on_written}
use baileys_session_manager.Cache.Manager.Levels.{Coherent}
use baileys_session_manager.Cache.Manager.Coherence.{get-Answers, Answers}
use baileys_session_manager.Adapter
use baileys_session_manager.Adapter.{member, value_of, overwritten, Entry}
use baileys_session_manager.Adapters.Sqlite
use baileys_session_manager.Adapters.Sqlite.{sqlite_adapter, set_many, to_optional}
use baileys_session_manager.Adapters.Sqlite.Healthy.{healthy, get-set_many}
use baileys_session_manager.Adapter.{SessionRecord}
use baileys_session_manager.Adapters.Sqlite.Worker.{handle, Store, Row, is_row, select, upsert_all}
use baileys_session_manager.Adapters.Table.Rows.{value_in, version_in, times, select-upsert_all}
use baileys_session_manager.Adapters.Sqlite.Answers.{visible, IsKeyed}
use baileys_session_manager.Adapters.Sqlite.Refinement.{sqlite_adapter-Laws}
use baileys_session_manager.Utils.Retry.{with_retry, RetryOptions}
use baileys_session_manager.Retention.{KeyRetentionOptions, prune_expired_keys}
use baileys_session_manager.Retention.Categories.{Category, creds_key}
use baileys_session_manager.Retention.Pruning.{IsExpired, prune_expired_keys_lem}
use baileys_session_manager.SessionManager.{
  export_session, export_keys, export_session_to_object, import_session,
}
use baileys_session_manager.SessionManager.Transfer.{
  or_else, lookup-export_session_to_object, import_session-export,
}

-- A Redis that never fails.
abbrev pub redis : Redis (Map Versioned)
redis = record {
  mode = http;
  get = λ k r. (ok (lookup k r), r);
  set = λ k value version r. (ok tt, insert k (record { value = value; version = version }) r);
  del = λ k r. (ok tt, remove k r);
  publish_invalidation = none;
  delivered = λ k r. false;
  close = λ r. (ok tt, r);
}

abbrev pub held : Map Versioned → Text → Option Versioned
held r k = lookup k r

redis-Laws : Redis.Laws redis held
redis-Laws = record {
  held-get = λ k r. refl;
  get_lem = λ k r v h. ground arith;
  set_lem = λ k value version r h.
      ground
        (arith, text_eq_refl k, lookup-insert k k (record { value = value; version = version }) r);
  set_other = λ k value version r j ne.
      ground (arith, lookup-insert k j (record { value = value; version = version }) r);
  set_failed = λ k value version r v h.
      ground
        (arith, text_eq_refl k, lookup-insert k k (record { value = value; version = version }) r);
  del_lem = λ k r h. ground (arith, text_eq_refl k, lookup-remove k k r);
  del_other = λ k r j ne. ground (arith, lookup-remove k j r);
  held-publish = λ publish k r h. absurd (ground arith);
}

abbrev pub options : RetryOptions
options = record { retries = none; min_delay_ms = none; max_delay_ms = none }

abbrev pub manager : CacheManager Store (Map Versioned)
manager = record { adapter = sqlite_adapter options; l2 = some redis }

manager-redis : (r : Redis (Map Versioned)) → manager.l2 ≡ some r → Redis.Laws r held
manager-redis r h = let same : redis ≡ r = ground (arith, h) in rw (← same) redis-Laws

abbrev pub row : Text → Text → Row
row key value = record {
  session_id = text "s";
  key = key;
  value = value;
  updated_at = 0;
  version = 1;
}

abbrev pub store : Store
store = record {
  created = true;
  closed = false;
  table = row (text "creds") (text "c") ∷ row (text "session-1") (text "v") ∷ [];
  now = 100;
  faults = some (text "busy") ∷ [];
}

store-IsKeyed : IsKeyed store
unfolding select text_eq is_row
store-IsKeyed = (refl, (refl, tt))

abbrev pub world : World Store (Map Versioned)
world = record { db = store; redis = []; l1 = create none none none }

pub empty-IsValid : IsValid (create none none none)
unfolding create baileys_session_manager.Cache.Memory.Eviction.total
empty-IsValid = record { distinct = tt; named = tt; sized = tt; counted = refl }

world-Coherent : Coherent visible held (visible store) world
unfolding create lookup
world-Coherent = record {
  shows = refl;
  valid = empty-IsValid;
  l1_agrees = λ sid key e p h. absurd (ground arith);
  l2_agrees = λ sid key v p h. absurd (ground arith);
}

pub s-IsPlain : IsPlain (text "s")
s-IsPlain = (omega arith, tt)

get-Answers_example :
    Answers manager visible held manager-redis IsKeyed
      (sqlite_adapter-Laws options)
      (visible store)
      (text "s")
      (text "session-1")
      s-IsPlain
      store
      (get manager 1 2 (text "s") (text "session-1") world)
get-Answers_example =
    get-Answers manager visible held manager-redis IsKeyed (sqlite_adapter-Laws options)
      (visible store) (text "s") (text "session-1") s-IsPlain 1 2 world world-Coherent

cache_key_collision_example :
    cache_key (text "a" ++ (text ":" ++ text "b")) (text "creds")
    ≡ cache_key (text "a") (text "b" ++ (text ":" ++ text "creds"))
cache_key_collision_example = cache_key_collision (text "a") (text "b") (text "creds")

program : Unit {0}
unfolding baileys_session_manager.Adapters.Sqlite.get_all_keys
    baileys_session_manager.Adapters.Sqlite.get baileys_session_manager.Adapters.Sqlite.get_many
    baileys_session_manager.Adapters.Sqlite.set_many
    baileys_session_manager.Adapters.Sqlite.delete_many
    baileys_session_manager.Adapters.Base.base_with_retry
    baileys_session_manager.Adapters.Sqlite.sleep baileys_session_manager.Adapters.Table.collect
    baileys_session_manager.Adapters.Sqlite.as_names baileys_session_manager.Adapters.Sqlite.as_rows
    baileys_session_manager.Adapters.Sqlite.as_row baileys_session_manager.Adapters.Sqlite.call
    baileys_session_manager.Adapters.Sqlite.to_record
    baileys_session_manager.Adapters.Sqlite.to_optional
    baileys_session_manager.Adapters.Sqlite.Worker.prepare
    baileys_session_manager.Adapters.Sqlite.Worker.execute
    baileys_session_manager.Adapters.Sqlite.Worker.fault_or
    baileys_session_manager.Adapters.Sqlite.Worker.strike
    baileys_session_manager.Adapters.Sqlite.Worker.is_in
    baileys_session_manager.Adapters.Sqlite.Worker.is_row
    baileys_session_manager.Adapters.Sqlite.Worker.nonempty
    baileys_session_manager.Adapters.Sqlite.Worker.reads
    baileys_session_manager.Adapters.Sqlite.Worker.writes
    baileys_session_manager.Adapters.Sqlite.Worker.select
    baileys_session_manager.Adapters.Sqlite.Worker.upsert
    baileys_session_manager.Adapters.Sqlite.Worker.upsert_all
    baileys_session_manager.Adapters.Sqlite.Worker.handle baileys_session_manager.Base.keep
    baileys_session_manager.Base.starts_with baileys_session_manager.Base.text_eq
    baileys_session_manager.Base.Map.lookup baileys_session_manager.Base.Map.insert
    baileys_session_manager.Base.Map.remove baileys_session_manager.Retention.is_candidate
    baileys_session_manager.Retention.stale_keys baileys_session_manager.Retention.is_stale
    baileys_session_manager.Retention.prune_expired_keys
    baileys_session_manager.Retention.on_deleted_all
    baileys_session_manager.Retention.Categories.resolve_category
    baileys_session_manager.Retention.Categories.categories
    baileys_session_manager.Retention.Categories.find_category
    baileys_session_manager.Retention.Categories.matches
    baileys_session_manager.Retention.Categories.place
    baileys_session_manager.Retention.Categories.sort_by_length
    baileys_session_manager.Adapter.member baileys_session_manager.SessionManager.to_object
    baileys_session_manager.SessionManager.to_entries
    baileys_session_manager.SessionManager.export_session
    baileys_session_manager.SessionManager.export_keys
    baileys_session_manager.SessionManager.export_session_to_object
    baileys_session_manager.SessionManager.import_session
    baileys_session_manager.SessionManager.with_value baileys_session_manager.SessionManager.forget
    baileys_session_manager.Adapters.Sqlite.sqlite_adapter
    baileys_session_manager.Utils.Retry.backoff baileys_session_manager.Utils.Retry.retry_loop
    baileys_session_manager.Utils.Retry.with_retry baileys_session_manager.Cache.Manager.on_deleted
    baileys_session_manager.Cache.Manager.safe_l2_del baileys_session_manager.Cache.Manager.publish
    baileys_session_manager.Cache.Manager.clear_session
program = tt

-- Sessions may be pruned after 10 ms.
abbrev retention : KeyRetentionOptions
retention = record { enabled = true; max_age_ms_by_category = λ category. some 10 }

prune_expired_keys_example :
    ((member (text "session-1") (text "session-1" ∷ []) ≡ true)
      ↔ IsExpired retention 200 (text "session-1") (visible store (text "s") (text "session-1")))
    × (visible
          (prune_expired_keys manager retention 200 (text "s") world).1.db
          (text "s")
          (text "session-1")
        ≡ (if member (text "session-1") (text "session-1" ∷ [])
            then none
            else visible store (text "s") (text "session-1")))
unfolding program
prune_expired_keys_example =
    prune_expired_keys_lem manager visible IsKeyed (sqlite_adapter-Laws options) retention 200
      (text "s") (text "session-1" ∷ []) world (text "session-1") store-IsKeyed refl

lookup-export_example :
    lookup (text "session-1") ((text "creds", text "c") ∷ (text "session-1", text "v") ∷ [])
    ≡ value_of (visible store (text "s") (text "session-1"))
unfolding program
lookup-export_example =
    lookup-export_session_to_object manager visible (sqlite_adapter-Laws options) (text "s") world
      ((text "creds", text "c") ∷ (text "session-1", text "v") ∷ []) refl (text "session-1")

import_session-export_example :
    value_of (
      visible
        (import_session manager
          (text "t")
          ((text "creds", text "c") ∷ (text "session-1", text "v") ∷ [])
          world).1.db
        (text "t")
        (text "session-1"))
    ≡ or_else
        (value_of (visible store (text "s") (text "session-1")))
        (value_of (visible store (text "t") (text "session-1")))
unfolding program
import_session-export_example =
    import_session-export manager visible (sqlite_adapter-Laws options) manager visible
      (sqlite_adapter-Laws options) (text "s") (text "t") world world
      ((text "creds", text "c") ∷ (text "session-1", text "v") ∷ []) refl refl (text "session-1")

sqlite_adapter-Laws_example : Adapter.Laws (sqlite_adapter options) visible IsKeyed
sqlite_adapter-Laws_example = sqlite_adapter-Laws options

select-upsert_all_example :
    (value_in (
        select (text "s") (text "creds") (
          upsert_all
            (text "s")
            (record { key = text "creds"; value = text "d" } ∷ [])
            7
            store.table))
      ≡ overwritten
          (record { key = text "creds"; value = text "d" } ∷ [])
          (text "creds")
          (value_in (select (text "s") (text "creds") store.table)))
    × (version_in (
          select (text "s") (text "creds") (
            upsert_all
              (text "s")
              (record { key = text "creds"; value = text "d" } ∷ [])
              7
              store.table))
        ≡ version_in (select (text "s") (text "creds") store.table)
          + times (text "creds") (record { key = text "creds"; value = text "d" } ∷ []))
select-upsert_all_example =
    select-upsert_all (text "s") (record { key = text "creds"; value = text "d" } ∷ []) 7
      store.table (text "creds")

abbrev pub alone : CacheManager Store (Map Versioned)
alone = record manager { l2 = none }

get-on_written_example :
    (get alone 60 60
      (text "s")
      (text "session-1")
      (on_written alone 50 (text "s") (text "session-1") (text "w") 2 world).1).0
    ≡ ok (some (text "w"))
unfolding create baileys_session_manager.Cache.Memory.byte_length
get-on_written_example =
    get-on_written alone 50 60 60 (text "s") (text "session-1") (text "w") 2 world empty-IsValid
      (omega arith) (omega arith) (omega arith) refl

get-set_many_example :
    (found : Option SessionRecord) × (((set_many options
            (text "s")
            (record { key = text "creds"; value = text "d" } ∷ [])
          >>= λ _. Sqlite.get options (text "s") (text "creds"))
        (healthy store.table 7)).0
      ≡ ok found)
    × (value_of found
        ≡ overwritten
            (record { key = text "creds"; value = text "d" } ∷ [])
            (text "creds")
            (value_of (to_optional (select (text "s") (text "creds") store.table))))
get-set_many_example =
    get-set_many options store.table 7 (text "s")
      (record { key = text "creds"; value = text "d" } ∷ []) (text "creds")
