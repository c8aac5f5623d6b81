-- ===== src/Cache/Manager/Updates.antt =====
-- The write path of cache-manager.ts against the rows: what it leaves in the caches after a row was
-- written.
use baileys_session_manager.Base.{
  ℕ, ◌≡◌, ◌≢◌, refl, ap, sym, ◌∙◌, ◌⊎◌, inl, inr, Option, none, some, Text, text_eq, text_eq_iff,
  arith, Bool-cases,
}
use baileys_session_manager.Base.Exec.{ok, error, Exec}
use baileys_session_manager.Cache.Memory
use baileys_session_manager.Cache.Memory.{MemoryCache, Versioned}
use baileys_session_manager.Cache.Memory.Invariant.{IsValid, set-IsValid, delete-IsValid}
use baileys_session_manager.Cache.Redis
use baileys_session_manager.Cache.Redis.{Redis, Mode, tcp, http}
use baileys_session_manager.Adapter
use baileys_session_manager.Adapter.{Adapter, value_of}
use baileys_session_manager.Cache.Manager.{
  CacheManager, World, cache_key, cache_key-injective, cache_key-ne-nil, IsPlain, safe_l2_set,
  publish, on_written, on_invalidated, get,
}
use baileys_session_manager.Cache.Manager.Effects.{caught_lem, Heard}
use baileys_session_manager.Cache.Manager.Levels.{
  View, Coherent, L1Agrees, L2Agrees, L1Agrees-written, L1Agrees-delete, Changed, kept_value,
}
use baileys_session_manager.Cache.Manager.Coherence.{get-Answers}

module _ {D R : Type 0} (m : CacheManager D R) (rows : D → View)
    (held : R → Text → Option Versioned)
    (redis_laws : (redis : Redis R) → m.l2 ≡ some redis → Redis.Laws redis held) (redis : Redis R)
    (there : m.l2 ≡ some redis) where
  -- A message leaves what Redis holds, and may take its key out of L1.
  published :
      (k : Text) (w : World D R)
      → (r : R) × (c : MemoryCache) × (publish m k w ≡ (ok tt, record w { redis = r; l1 = c }))
        × (held r ≡ held w.redis)
        × Heard m k w.l1 c
  unfolding publish on_invalidated
  published k w = go redis.mode redis.publish_invalidation refl refl
    where
      go :
          (mode : Mode) (send : Option (Text → Exec R (Unit {0})))
          → redis.mode ≡ mode
          → redis.publish_invalidation ≡ send
          → (r : R) × (c : MemoryCache) × (publish m k w ≡ (ok tt, record w { redis = r; l1 = c }))
            × (held r ≡ held w.redis)
            × Heard m k w.l1 c
      go http send f g = (w.redis, w.l1, rw (there, f) refl, refl, inl refl)
      go tcp none f g = (w.redis, w.l1, rw (there, f, g) refl, refl, inl refl)
      go tcp (some s) f g =
          let same = (redis_laws redis there).held-publish s k w.redis g in
          elim (Bool-cases (redis.delivered k (s k w.redis).1)) [
            | inl back ↦
                (_, Memory.delete k w.l1, rw (there, f, g, caught_lem, back) refl, same, inr refl)
            | inr lost ↦ (_, w.l1, rw (there, f, g, caught_lem, lost) refl, same, inl refl)
          ]

  stored :
      (k value : Text) (version : ℕ) (w : World D R)
      → safe_l2_set m k value version w
        ≡ (ok tt, record w { redis = (redis.set k value version w.redis).1 })
  unfolding safe_l2_set
  stored k value version w = rw (there, caught_lem) refl

  -- The value that Redis took is the one that it holds.
  L2Agrees-set :
      (before after : View) (sid key value : Text) (version : ℕ) (r : R)
      → IsPlain sid
      → value_of (after sid key) ≡ some value
      → Changed before after sid key
      → (redis.set (cache_key sid key) value version r).0 ≡ ok tt
      → L2Agrees before (held r)
      → L2Agrees after (held (redis.set (cache_key sid key) value version r).1)
  L2Agrees-set before after sid key value version r plain new changed taken h sid' key' v p q =
      let laws = redis_laws redis there in
      let k = cache_key sid key in
      let j = cache_key sid' key' in
      elim (Bool-cases (text_eq k j)) [
        | inl equal ↦
            let same : k ≡ j = (text_eq_iff k j).0 equal in
            let (s, l) = cache_key-injective sid sid' key key' plain p same in
            let given : some v ≡ some (record { value = value; version = version }) =
              sym q
              ∙ ap (held (redis.set k value version r).1) (sym same)
              ∙ laws.set_lem k value version r taken in
            rw (← s, ← l) (new ∙ sym (ap value_in given))
        | inr other ↦
            let ne : k ≢ j = λ same. ground (arith, other, text_eq_iff k j, same) in
            kept_value before after sid key sid' key' changed ne
            ∙ h sid' key' v p (sym (laws.set_other k value version r j other) ∙ q)
      ]
    where
      value_in : Option Versioned → Option Text
      value_in none = none
      value_in (some v) = some v.value

  Heard-Agrees :
      (view : View) (k : Text) (old c : MemoryCache)
      → Heard m k old c
      → IsValid old
      → L1Agrees view old
      → IsValid c × L1Agrees view c
  Heard-Agrees view k old c (inl same) v h = rw same (v, h)
  Heard-Agrees view k old c (inr gone) v h =
      rw gone (delete-IsValid k old v, L1Agrees-delete view k old v h)

  pub on_written-Coherent :
      (before : View) (now : ℕ) (sid key value : Text) (version : ℕ) (w : World D R)
      → IsPlain sid
      → IsValid w.l1
      → L1Agrees before w.l1
      → L2Agrees before (held w.redis)
      → value_of (rows w.db sid key) ≡ some value
      → Changed before (rows w.db) sid key
      → (redis.set (cache_key sid key) value version w.redis).0 ≡ ok tt
      → Coherent rows held (rows w.db) (on_written m now sid key value version w).1
        × ((on_written m now sid key value version w).1.db ≡ w.db)
  unfolding on_written
  on_written-Coherent before now sid key value version w plain v l1 l2 new changed taken =
      let k = cache_key sid key in
      let c1 = Memory.set now k value version w.l1 in
      let r1 = (redis.set k value version w.redis).1 in
      let (r, c, sent, same, heard) = published k (record w { l1 = c1; redis = r1 }) in
      let (valid, agrees) =
        Heard-Agrees (rows w.db) k c1 c heard
          (set-IsValid now k value version w.l1 (cache_key-ne-nil sid key) v).0
          (L1Agrees-written before (rows w.db) now sid key value version w.l1 plain new changed v
            l1) in
      rw (stored k value version (record w { l1 = c1 }), sent)
        (
          record {
            shows = refl;
            valid = valid;
            l1_agrees = agrees;
            l2_agrees = rw same (
                L2Agrees-set before (rows w.db) sid key value version w.redis plain new changed
                  taken l2);
          },
          refl,
        )

module _ {D R : Type 0} (m : CacheManager D R) (rows : D → View)
    (held : R → Text → Option Versioned)
    (redis_laws : (redis : Redis R) → m.l2 ≡ some redis → Redis.Laws redis held)
    (IsSound : D → Type 0) (db_laws : Adapter.Laws m.adapter rows IsSound) where
  -- Over a database and a Redis in any mode that keep their laws: if L1 is valid and the caches hold
  -- no value but those that the rows had, one row has been given a value, in a session whose id has
  -- no colon, and Redis takes the value, then `onWritten` leaves caches that hold no value but those
  -- of the rows, whether or not its own message comes back, and a read of the key that follows
  -- returns the value, or throws what the database threw when it was read.
  pub get-on_written_redis :
      (redis : Redis R) (before : View) (now at later : ℕ) (sid key value : Text) (version : ℕ)
      (w : World D R)
      → m.l2 ≡ some redis
      → IsPlain sid
      → IsValid w.l1
      → L1Agrees before w.l1
      → L2Agrees before (held w.redis)
      → value_of (rows w.db sid key) ≡ some value
      → Changed before (rows w.db) sid key
      → (redis.set (cache_key sid key) value version w.redis).0 ≡ ok tt
      → Coherent rows held (rows w.db) (on_written m now sid key value version w).1
        × (((get m at later sid key (on_written m now sid key value version w).1).0
              ≡ ok (some value))
            ⊎ ((e : Text) × ((m.adapter.get sid key w.db).0 ≡ error e)
                × ((get m at later sid key (on_written m now sid key value version w).1).0
                    ≡ error e)))
  get-on_written_redis redis before now at later sid key value version w there plain v l1 l2 new
        changed taken =
      let (good, same) =
        on_written-Coherent m rows held redis_laws redis there before now sid key value version w
          plain v l1 l2 new changed taken in
      let w' = (on_written m now sid key value version w).1 in
      let (_, answer) =
        get-Answers m rows held redis_laws IsSound db_laws (rows w.db) sid key plain at later w'
          good in
      (
        good,
        elim answer [
          | inl fine ↦ inl (fine ∙ ap ok new)
          | inr (e, failed, out) ↦
              inr (e, ap (λ d. (m.adapter.get sid key d).0) (sym same) ∙ failed, out)
        ],
      )
