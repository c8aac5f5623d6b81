-- ===== src/Cache/Manager/Effects.antt =====
-- What the write path of cache-manager.ts does to the stores, whatever Redis answers: nothing that
-- Redis throws comes out.
use baileys_session_manager.Base.{◌≡◌, ◌⊎◌, inl, inr, Bool-cases, refl, Option, none, some, Text, ℕ}
use baileys_session_manager.Base.Exec.{Result, ok, error, Exec}
use baileys_session_manager.Cache.Memory
use baileys_session_manager.Cache.Memory.{MemoryCache}
use baileys_session_manager.Cache.Redis.{Redis, Mode, tcp, http}
use baileys_session_manager.Cache.Manager.{
  CacheManager, World, cache_key, caught, safe_l2_set, safe_l2_del, publish, on_written, on_deleted,
  on_invalidated,
}

pub caught_lem : {R : Type 0} (out : Result (Unit {0}) × R) → caught tt out ≡ (ok tt, out.1)
caught_lem (ok u, r) = refl
caught_lem (error e, r) = refl

module _ {D R : Type 0} (m : CacheManager D R) where
  pub safe_l2_set_lem :
      (k value : Text) (version : ℕ) (w : World D R)
      → (r : R) × (safe_l2_set m k value version w ≡ (ok tt, record w { redis = r }))
  unfolding safe_l2_set
  safe_l2_set_lem k value version w = go m.l2 refl
    where
      go :
          (l2 : Option (Redis R))
          → m.l2 ≡ l2
          → (r : R) × (safe_l2_set m k value version w ≡ (ok tt, record w { redis = r }))
      go none e = (w.redis, rw e refl)
      go (some redis) e = ((redis.set k value version w.redis).1, rw (e, caught_lem) refl)

  pub safe_l2_del_lem :
      (k : Text) (w : World D R) → (r : R) × (safe_l2_del m k w ≡ (ok tt, record w { redis = r }))
  unfolding safe_l2_del
  safe_l2_del_lem k w = go m.l2 refl
    where
      go :
          (l2 : Option (Redis R))
          → m.l2 ≡ l2
          → (r : R) × (safe_l2_del m k w ≡ (ok tt, record w { redis = r }))
      go none e = (w.redis, rw e refl)
      go (some redis) e = ((redis.del k w.redis).1, rw (e, caught_lem) refl)

  -- What a message leaves in L1: its key may have been taken out.
  abbrev pub Heard : Text → MemoryCache → MemoryCache → Type 0
  Heard k old c = (c ≡ old) ⊎ (c ≡ Memory.delete k old)

  abbrev Published : Text → World D R → Type 0
  Published k w =
      (r : R) × (c : MemoryCache) × (publish m k w ≡ (ok tt, record w { redis = r; l1 = c }))
      × Heard k w.l1 c

  pub publish_lem : (k : Text) (w : World D R) → Published k w
  unfolding publish on_invalidated
  publish_lem k w = go m.l2 refl
    where
      sends :
          (redis : Redis R) (mode : Mode) (send : Option (Text → Exec R (Unit {0})))
          → m.l2 ≡ some redis
          → redis.mode ≡ mode
          → redis.publish_invalidation ≡ send
          → Published k w
      sends redis http send e f g = (w.redis, w.l1, rw (e, f) refl, inl refl)
      sends redis tcp none e f g = (w.redis, w.l1, rw (e, f, g) refl, inl refl)
      sends redis tcp (some s) e f g = elim (Bool-cases (redis.delivered k (s k w.redis).1)) [
        | inl back ↦
            ((s k w.redis).1, Memory.delete k w.l1, rw (e, f, g, caught_lem, back) refl, inr refl)
        | inr lost ↦ ((s k w.redis).1, w.l1, rw (e, f, g, caught_lem, lost) refl, inl refl)
      ]

      go : (l2 : Option (Redis R)) → m.l2 ≡ l2 → Published k w
      go none e = (w.redis, w.l1, rw e refl, inl refl)
      go (some redis) e = sends redis redis.mode redis.publish_invalidation e refl refl

  -- `onWritten` does not throw, whatever Redis does, and apart from Redis it changes only L1,
  -- where it puts the value, which its own message may take out again.
  pub on_written_lem :
      (now : ℕ) (sid key value : Text) (version : ℕ) (w : World D R)
      → (r : R) × (c : MemoryCache) × (on_written m now sid key value version w
          ≡ (ok tt, record w { l1 = c; redis = r }))
        × Heard (cache_key sid key) (Memory.set now (cache_key sid key) value version w.l1) c
  unfolding on_written
  on_written_lem now sid key value version w =
      let k = cache_key sid key in
      let w1 : World D R = record w { l1 = Memory.set now k value version w.l1 } in
      let (r, set) = safe_l2_set_lem k value version w1 in
      let (r', c, sent, heard) = publish_lem k (record w1 { redis = r }) in
      (r', c, rw set sent, heard)

  -- Without Redis, it puts the value into L1 and does nothing else.
  pub on_written_alone :
      (now : ℕ) (sid key value : Text) (version : ℕ) (w : World D R)
      → m.l2 ≡ none
      → on_written m now sid key value version w
        ≡ (ok tt, record w { l1 = Memory.set now (cache_key sid key) value version w.l1 })
  unfolding on_written safe_l2_set publish
  on_written_alone now sid key value version w h = rw h refl

  -- `onDeleted` does not throw, and takes the key out of L1, perhaps twice.
  pub on_deleted_lem :
      (sid key : Text) (w : World D R)
      → (r : R) × (c : MemoryCache) × (on_deleted m sid key w
          ≡ (ok tt, record w { l1 = c; redis = r }))
        × Heard (cache_key sid key) (Memory.delete (cache_key sid key) w.l1) c
  unfolding on_deleted
  on_deleted_lem sid key w =
      let k = cache_key sid key in
      let w1 : World D R = record w { l1 = Memory.delete k w.l1 } in
      let (r, gone) = safe_l2_del_lem k w1 in
      let (r', c, sent, heard) = publish_lem k (record w1 { redis = r }) in
      (r', c, rw gone sent, heard)
