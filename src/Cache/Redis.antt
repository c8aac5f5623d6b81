-- ===== src/Cache/Redis.antt =====
-- src/types.ts: `IRedisCacheAdapter`, the L2 cache. `R` is the state of the Redis server and of the
-- connection.
pub mod Client
pub mod Refinement
pub mod Tcp
pub mod Http
use baileys_session_manager.Base.{ℕ, ◌≡◌, ◌⊎◌, Bool, false, Option, none, some, Text, text_eq}
use baileys_session_manager.Base.Exec.{ok, Exec}
use baileys_session_manager.Cache.Memory.{Versioned}

pub data Mode : Type 0 where
  tcp http : Mode

-- `publish` is there in TCP mode only. `delivered` is the environment's: does a message that is sent
-- come back at once to the listener of the same instance, which `subscribeInvalidation` set?
pub record Redis (R : Type 0) : Type 0 where
  pub mode : Mode
  pub get : Text → Exec R (Option Versioned)
  pub set : Text → Text → ℕ → Exec R (Unit {0})
  pub del : Text → Exec R (Unit {0})
  pub publish_invalidation : Option (Text → Exec R (Unit {0}))
  pub delivered : Text → R → Bool
  pub close : Exec R (Unit {0})

-- What the cache manager relies on: `held` is what the server holds. Any operation may fail. A read
-- that does not fail returns what is held, or nothing, as after an eviction by the server.
pub record Laws {R : Type 0} (redis : Redis R) (held : R → Text → Option Versioned) : Type 0 where
  pub held-get : (k : Text) (r : R) → held (redis.get k r).1 ≡ held r
  pub get_lem :
      (k : Text) (r : R) (v : Versioned) → (redis.get k r).0 ≡ ok (some v) → held r k ≡ some v
  -- A write that succeeds is there. After one that fails there is what was written, what was there
  -- before, or nothing.
  pub set_lem :
      (k value : Text) (version : ℕ) (r : R)
      → (redis.set k value version r).0 ≡ ok tt
      → held (redis.set k value version r).1 k ≡ some (record { value = value; version = version })
  pub set_other :
      (k value : Text) (version : ℕ) (r : R) (j : Text)
      → text_eq k j ≡ false
      → held (redis.set k value version r).1 j ≡ held r j
  pub set_failed :
      (k value : Text) (version : ℕ) (r : R) (v : Versioned)
      → held (redis.set k value version r).1 k ≡ some v
      → (v ≡ record { value = value; version = version }) ⊎ (held r k ≡ some v)
  pub del_lem : (k : Text) (r : R) → (redis.del k r).0 ≡ ok tt → held (redis.del k r).1 k ≡ none
  pub del_other :
      (k : Text) (r : R) (j : Text) → text_eq k j ≡ false → held (redis.del k r).1 j ≡ held r j
  pub held-publish :
      (publish : Text → Exec R (Unit {0})) (k : Text) (r : R)
      → redis.publish_invalidation ≡ some publish
      → held (publish k r).1 ≡ held r
