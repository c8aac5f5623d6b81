-- ===== src/Cache/Manager.antt =====
-- src/cache/cache-manager.ts: reads go down from L1 to L2 to the database, and fill the levels
-- above. The manager is the adapter and the L2 cache, if there is one; the three stores are in the
-- world. The log is left out: nothing reads it.
mod Keys
pub mod Effects
pub mod Levels
pub mod Coherence
pub mod Writes
pub mod Updates
unfoldable pub use Keys.*
use baileys_session_manager.Base.{
  ℕ, Bool, true, false, Option, none, some, List, [], ◌∷◌, ◌++◌, ◌==◌, if◌then◌else◌, Text, text,
}
use baileys_session_manager.Base.Exec.{Result, ok, error, Exec, pure, ◌>>=◌, ◌>>◌}
use baileys_session_manager.Base.Map.{Map, insert}
use baileys_session_manager.Cache.Memory
use baileys_session_manager.Cache.Memory.{MemoryCache, Versioned}
use baileys_session_manager.Cache.Redis.{Redis, tcp, http}
use baileys_session_manager.Adapter.{Adapter, SessionRecord}

-- The stores behind a manager.
pub record World (D R : Type 0) : Type 0 where
  pub db : D
  pub redis : R
  pub l1 : MemoryCache

pub record CacheManager (D R : Type 0) : Type 0 where
  pub adapter : Adapter D
  pub l2 : Option (Redis R)

module _ {D R : Type 0} where
  abbrev pub on_db : {A : Type 0} → Exec D A → Exec (World D R) A
  on_db m w = let (r, d) = m w.db in (r, record w { db = d })

  abbrev pub on_redis : {A : Type 0} → Exec R A → Exec (World D R) A
  on_redis m w = let (r, s) = m w.redis in (r, record w { redis = s })

  abbrev pub on_l1 : {A : Type 0} → (MemoryCache → A × MemoryCache) → Exec (World D R) A
  on_l1 f w = let (a, c) = f w.l1 in (ok a, record w { l1 = c })

  -- A method of L1 that returns nothing.
  abbrev pub l1_do : (MemoryCache → MemoryCache) → Exec (World D R) (Unit {0})
  l1_do f w = (ok tt, record w { l1 = f w.l1 })

abbrev pub mode_is_http : {R : Type 0} → Option (Redis R) → Bool
mode_is_http none = false
mode_is_http (some redis) = elim redis.mode [ tcp ↦ false | http ↦ true ]

-- The check of an L1 hit against L2 in HTTP mode: is the hit still to be trusted?
agrees : Versioned → Option Versioned → Bool
agrees hit none = true
agrees hit (some check) = check.version == hit.version

-- `try { … } catch { … }`, where the handler makes do with a value of its own.
abbrev pub caught : {A R : Type 0} → A → Result A × R → Result A × R
caught fallback (ok a, r) = (ok a, r)
caught fallback (error e, r) = (ok fallback, r)

module _ {D R : Type 0} where
  unfoldable pub safe_l2_get : CacheManager D R → Text → Exec (World D R) (Option Versioned)
  safe_l2_get m k = elim m.l2 [
    | none ↦ pure none
    | some redis ↦ on_redis (λ r. caught none (redis.get k r))
  ]

  unfoldable pub safe_l2_set : CacheManager D R → Text → Text → ℕ → Exec (World D R) (Unit {0})
  safe_l2_set m k value version = elim m.l2 [
    | none ↦ pure tt
    | some redis ↦ on_redis (λ r. caught tt (redis.set k value version r))
  ]

  check_hit : Text → Versioned → Option Versioned → Exec (World D R) (Option Text)
  unfolding agrees
  check_hit k hit check =
      if agrees hit check then pure (some hit.value) else (l1_do (Memory.delete k) >> pure none)

  -- What an L1 hit answers; `none` goes on to the levels below.
  unfoldable pub from_l1 :
      CacheManager D R → Text → Option Versioned → Exec (World D R) (Option Text)
  unfolding safe_l2_get check_hit
  from_l1 m k none = pure none
  from_l1 m k (some hit) =
      if mode_is_http m.l2
      then (safe_l2_get m k >>= λ check. check_hit k hit check)
      else pure (some hit.value)

  -- The end of a read that the database answers.
  fill : CacheManager D R → ℕ → Text → Option SessionRecord → Exec (World D R) (Option Text)
  unfolding safe_l2_set
  fill m now k none = pure none
  fill m now k (some record') = do
    l1_do (Memory.set now k record'.value record'.version)
    safe_l2_set m k record'.value record'.version
    pure (some record'.value)

  from_db : CacheManager D R → ℕ → Text → Text → Exec (World D R) (Option Text)
  unfolding fill
  from_db m now session_id key = do
    found ← on_db (m.adapter.get session_id key)
    fill m now (cache_key session_id key) found

  from_l2 : CacheManager D R → ℕ → Text → Text → Option Versioned → Exec (World D R) (Option Text)
  unfolding from_db
  from_l2 m now session_id key none = from_db m now session_id key
  from_l2 m now session_id key (some hit) = do
    l1_do (Memory.set now (cache_key session_id key) hit.value hit.version)
    pure (some hit.value)

  unfoldable pub below_l1 :
      CacheManager D R → ℕ → Text → Text → Option Text → Exec (World D R) (Option Text)
  unfolding safe_l2_get from_l2
  below_l1 m now session_id key (some value) = pure (some value)
  below_l1 m now session_id key none = do
    hit ← safe_l2_get m (cache_key session_id key)
    from_l2 m now session_id key hit

  -- `now` is the time of the look-up in L1, and `later` that of the entry that a miss makes there.
  unfoldable pub get : CacheManager D R → ℕ → ℕ → Text → Text → Exec (World D R) (Option Text)
  unfolding from_l1 below_l1
  get m now later session_id key = do
    hit ← on_l1 (Memory.get now (cache_key session_id key))
    answer ← from_l1 m (cache_key session_id key) hit
    below_l1 m later session_id key answer

  -- The first loop of `getMany`: the answers of L1, and the keys that it misses.
  unfoldable pub scan_l1 :
      CacheManager D R
      → ℕ
      → Text
      → List Text
      → Map Text
      → List Text
      → Exec (World D R) (Map Text × List Text)
  scan_l1 m now session_id [] result misses = pure (result, misses)
  scan_l1 m now session_id (key ∷ rest) result misses = do
    hit ← on_l1 (Memory.get now (cache_key session_id key))
    elim hit [
      | none ↦ scan_l1 m now session_id rest result (misses ++ key ∷ [])
      | some found ↦ elim (mode_is_http m.l2) [
        | true ↦ scan_l1 m now session_id rest result (misses ++ key ∷ [])
        | false ↦ scan_l1 m now session_id rest (insert key found.value result) misses
      ]
    ]

  -- The second loop: the records of the database, put into both caches and into the result.
  unfoldable pub fill_many :
      CacheManager D R → ℕ → Text → Map SessionRecord → Map Text → Exec (World D R) (Map Text)
  fill_many m now session_id [] result = pure result
  fill_many m now session_id ((key, found) ∷ rest) result = do
    l1_do (Memory.set now (cache_key session_id key) found.value found.version)
    safe_l2_set m (cache_key session_id key) found.value found.version
    fill_many m now session_id rest (insert key found.value result)

  read_misses : CacheManager D R → ℕ → Text → Map Text → List Text → Exec (World D R) (Map Text)
  unfolding fill_many
  read_misses m later session_id result [] = pure result
  read_misses m later session_id result (key ∷ misses) = do
    records ← on_db (m.adapter.get_many session_id (key ∷ misses))
    fill_many m later session_id records result

  unfoldable pub get_many :
      CacheManager D R → ℕ → ℕ → Text → List Text → Exec (World D R) (Map Text)
  unfolding scan_l1 read_misses
  get_many m now later session_id keys = do
    (result, misses) ← scan_l1 m now session_id keys [] []
    read_misses m later session_id result misses

  -- The callback that TCP mode subscribes with.
  unfoldable pub on_invalidated : Text → World D R → World D R
  on_invalidated k w = record w { l1 = Memory.delete k w.l1 }

  -- What the own listener makes of a message that was sent.
  hear : Redis R → Text → Exec (World D R) (Unit {0})
  unfolding on_invalidated
  hear redis k w = (ok tt, if redis.delivered k w.redis then on_invalidated k w else w)

  -- `if (this.l2?.mode === 'tcp' && this.l2.publishInvalidation)`, with what it throws swallowed. The
  -- message may come back to the own listener here; one that comes later is an `on_invalidated`.
  unfoldable pub publish : CacheManager D R → Text → Exec (World D R) (Unit {0})
  unfolding hear
  publish m k = elim m.l2 [
    | none ↦ pure tt
    | some redis ↦ elim redis.mode [
      | http ↦ pure tt
      | tcp ↦ elim redis.publish_invalidation [
        | none ↦ pure tt
        | some send ↦ on_redis (λ r. caught tt (send k r)) >> hear redis k
      ]
    ]
  ]

  unfoldable pub on_written :
      CacheManager D R → ℕ → Text → Text → Text → ℕ → Exec (World D R) (Unit {0})
  on_written m now session_id key value version = do
    l1_do (Memory.set now (cache_key session_id key) value version)
    safe_l2_set m (cache_key session_id key) value version
    publish m (cache_key session_id key)

  -- `await this.l2?.del(compositeKey).catch(() => {})`
  unfoldable pub safe_l2_del : CacheManager D R → Text → Exec (World D R) (Unit {0})
  safe_l2_del m k = elim m.l2 [
    | none ↦ pure tt
    | some redis ↦ on_redis (λ r. caught tt (redis.del k r))
  ]

  unfoldable pub on_deleted : CacheManager D R → Text → Text → Exec (World D R) (Unit {0})
  on_deleted m session_id key = do
    l1_do (Memory.delete (cache_key session_id key))
    safe_l2_del m (cache_key session_id key)
    publish m (cache_key session_id key)

  unfoldable pub clear_session : Text → World D R → World D R
  clear_session session_id w = record w {
    l1 = Memory.delete_by_prefix (session_id ++ text ":") w.l1;
  }

  unfoldable pub clear_all : World D R → World D R
  clear_all w = record w { l1 = Memory.clear w.l1 }

  unfoldable pub close : CacheManager D R → Exec (World D R) (Unit {0})
  close m = do
    l1_do Memory.destroy
    elim m.l2 [ none ↦ pure tt | some redis ↦ on_redis (λ r. caught tt (redis.close r)) ]
