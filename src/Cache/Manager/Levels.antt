-- ===== src/Cache/Manager/Levels.antt =====
-- The two cache levels of cache-manager.ts against the rows of the database: what each operation
-- makes of their agreement.
use baileys_session_manager.Base.{
  ℕ, ◌≡◌, ◌≢◌, refl, ap, sym, ◌∙◌, ◌⊎◌, inl, inr, Option, none, some, Text, text_eq, text_eq_iff,
  arith, Bool-cases, Option-cases,
}
use baileys_session_manager.Base.Exec.{Result, ok, error}
use baileys_session_manager.Base.Map.{lookup}
use baileys_session_manager.Cache.Memory
use baileys_session_manager.Cache.Memory.{MemoryCache, CacheEntry, Versioned}
use baileys_session_manager.Cache.Memory.Invariant.{IsValid}
use baileys_session_manager.Cache.Memory.Reads.{
  lookup-get, lookup-set, lookup-delete, lookup-set_self,
}
use baileys_session_manager.Cache.Redis
use baileys_session_manager.Cache.Redis.{Redis, tcp, http}
use baileys_session_manager.Adapter.{SessionRecord, value_of}
use baileys_session_manager.Cache.Manager.{
  CacheManager, World, cache_key, IsPlain, cache_key-injective, cache_key-ne-nil, safe_l2_get,
  safe_l2_set,
}

-- What the rows of a database are, by session and key.
abbrev pub View : Type 0
View = Text → Text → Option SessionRecord

-- Every value in a cache is the value of the row.
abbrev pub L1Agrees : View → MemoryCache → Type 0
L1Agrees view c =
    (sid key : Text) (e : CacheEntry)
    → IsPlain sid
    → lookup (cache_key sid key) c.store ≡ some e
    → value_of (view sid key) ≡ some e.value

abbrev pub L2Agrees : View → (Text → Option Versioned) → Type 0
L2Agrees view held =
    (sid key : Text) (v : Versioned)
    → IsPlain sid
    → held (cache_key sid key) ≡ some v
    → value_of (view sid key) ≡ some v.value

-- The stores of a manager over a database with the given rows.
pub record Coherent {D R : Type 0} (rows : D → View) (held : R → Text → Option Versioned)
    (view : View) (w : World D R) : Type 0 where
  pub shows : rows w.db ≡ view
  pub valid : IsValid w.l1
  pub l1_agrees : L1Agrees view w.l1
  pub l2_agrees : L2Agrees view (held w.redis)

pub L1Agrees-get :
    (view : View) (now : ℕ) (k : Text) (c : MemoryCache)
    → IsValid c
    → L1Agrees view c
    → L1Agrees view (Memory.get now k c).1
L1Agrees-get view now k c v h sid key e p q = h sid key e p (lookup-get now k _ c e v q)

-- Only the value under one key differs.
abbrev pub Changed : View → View → Text → Text → Type 0
Changed before after sid key =
    (s k : Text)
    → ◌≢◌ {A = Text × Text} (s, k) (sid, key)
    → value_of (after s k) ≡ value_of (before s k)

pub kept_value :
    (before after : View) (sid key sid' key' : Text)
    → Changed before after sid key
    → cache_key sid key ≢ cache_key sid' key'
    → value_of (after sid' key') ≡ value_of (before sid' key')
kept_value before after sid key sid' key' changed ne =
    changed sid' key' (λ p. ne (ap (λ (q : Text × Text). cache_key q.0 q.1) (sym p)))

pub L1Agrees-written :
    (before after : View) (now : ℕ) (sid key value : Text) (version : ℕ) (c : MemoryCache)
    → IsPlain sid
    → value_of (after sid key) ≡ some value
    → Changed before after sid key
    → IsValid c
    → L1Agrees before c
    → L1Agrees after (Memory.set now (cache_key sid key) value version c)
L1Agrees-written before after now sid key value version c plain new changed v h sid' key' e p q =
    let k = cache_key sid key in
    let j = cache_key sid' key' in
    elim (Bool-cases (text_eq k j)) [
      | inl equal ↦
          let same : k ≡ j = (text_eq_iff k j).0 equal in
          let (s, l) = cache_key-injective sid sid' key key' plain p same in
          let given =
            lookup-set_self now k value version c e (cache_key-ne-nil sid key) v
              (ap (λ i. lookup i (Memory.set now k value version c).store) same ∙ q) in
          rw (← s, ← l, given) new
      | inr other ↦
          let ne : k ≢ j = λ same. ground (arith, other, text_eq_iff k j, same) in
          kept_value before after sid key sid' key' changed ne
          ∙ elim (lookup-set now k value version c j e (cache_key-ne-nil sid key) v q) [
            | inl (same, _) ↦ absurd (ne same)
            | inr old ↦ h sid' key' e p old
          ]
    ]

pub L1Agrees-delete :
    (view : View) (k : Text) (c : MemoryCache)
    → IsValid c
    → L1Agrees view c
    → L1Agrees view (Memory.delete k c)
L1Agrees-delete view k c v h sid key e p q =
    h sid key e p (ground (arith, lookup-delete k (cache_key sid key) c v))

pub L1Agrees-set :
    (view : View) (now : ℕ) (sid key value : Text) (version : ℕ) (c : MemoryCache)
    → IsPlain sid
    → value_of (view sid key) ≡ some value
    → IsValid c
    → L1Agrees view c
    → L1Agrees view (Memory.set now (cache_key sid key) value version c)
L1Agrees-set view now sid key value version c plain new v h sid' key' e p q =
    elim (lookup-set now (cache_key sid key) value version c (cache_key sid' key') e
      (cache_key-ne-nil sid key) v q) [
        | inl (same, given) ↦
            let (s, k) = cache_key-injective sid sid' key key' plain p same in
            rw (← s, ← k, given) new
        | inr old ↦ h sid' key' e p old
      ]

module _ {D R : Type 0} (m : CacheManager D R) (held : R → Text → Option Versioned)
    (redis_laws : (redis : Redis R) → m.l2 ≡ some redis → Redis.Laws redis held) where
  -- A read of L2 returns what is held, or nothing, and changes nothing.
  abbrev pub L2Read : Text → World D R → Type 0
  L2Read k w =
      (c : Option Versioned) × (r : R) × (safe_l2_get m k w ≡ (ok c, record w { redis = r }))
      × (held r ≡ held w.redis)
      × ((v : Versioned) → c ≡ some v → held w.redis k ≡ some v)

  caught_read :
      (redis : Redis R) (k : Text) (w : World D R) (out : Result (Option Versioned) × R)
      → m.l2 ≡ some redis
      → redis.get k w.redis ≡ out
      → L2Read k w
  unfolding safe_l2_get
  caught_read redis k w (ok c, r) e q = (
    c,
    r,
    rw (e, q) refl,
    ap (λ o. held o.1) (sym q) ∙ (redis_laws redis e).held-get k w.redis,
    λ v h. (redis_laws redis e).get_lem k w.redis v (ap (λ o. o.0) q ∙ ap ok h),
  )
  caught_read redis k w (error x, r) e q = (
    none,
    r,
    rw (e, q) refl,
    ap (λ o. held o.1) (sym q) ∙ (redis_laws redis e).held-get k w.redis,
    λ v h. cc,
  )

  pub l2_read : (k : Text) (w : World D R) → L2Read k w
  unfolding safe_l2_get
  l2_read k w = elim (Option-cases m.l2) [
    | inl e ↦ (none, w.redis, rw e refl, refl, λ v h. cc)
    | inr (redis, e) ↦ caught_read redis k w (redis.get k w.redis) e refl
  ]

  -- After a write to L2, failed or not, what is held is what was written or what was there.
  abbrev pub L2Written : Text → Text → ℕ → World D R → Type 0
  L2Written k value version w =
      (r : R) × (safe_l2_set m k value version w ≡ (ok tt, record w { redis = r }))
      × ((j : Text) (v : Versioned)
          → held r j ≡ some v
          → ((k ≡ j) × (v.value ≡ value)) ⊎ (held w.redis j ≡ some v))

  held-set :
      (redis : Redis R) (k value : Text) (version : ℕ) (s : R) (j : Text) (v : Versioned)
      → m.l2 ≡ some redis
      → held (redis.set k value version s).1 j ≡ some v
      → ((k ≡ j) × (v.value ≡ value)) ⊎ (held s j ≡ some v)
  held-set redis k value version s j v e h = elim (Bool-cases (text_eq k j)) [
    | inl same ↦
        let p : k ≡ j = (text_eq_iff k j).0 same in
        let h' : held (redis.set k value version s).1 k ≡ some v =
          ap (λ i. held (redis.set k value version s).1 i) p ∙ h in
        elim ((redis_laws redis e).set_failed k value version s v h') [
          | inl new ↦ inl (p, ap (λ x. x.value) new)
          | inr old ↦ inr (rw (← p) old)
        ]
    | inr other ↦ inr (sym ((redis_laws redis e).set_other k value version s j other) ∙ h)
  ]

  caught_write :
      (redis : Redis R) (k value : Text) (version : ℕ) (w : World D R) (out : Result (Unit {0}) × R)
      → m.l2 ≡ some redis
      → redis.set k value version w.redis ≡ out
      → L2Written k value version w
  unfolding safe_l2_set
  caught_write redis k value version w (ok u, r) e q =
      (r, rw (e, q) refl, λ j v h. held-set redis k value version w.redis j v e (rw q h))
  caught_write redis k value version w (error x, r) e q =
      (r, rw (e, q) refl, λ j v h. held-set redis k value version w.redis j v e (rw q h))

  pub l2_write : (k value : Text) (version : ℕ) (w : World D R) → L2Written k value version w
  unfolding safe_l2_set
  l2_write k value version w = elim (Option-cases m.l2) [
    | inl e ↦ (w.redis, rw e refl, λ j v h. inr h)
    | inr (redis, e) ↦
        caught_write redis k value version w (redis.set k value version w.redis) e refl
  ]
