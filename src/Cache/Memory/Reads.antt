-- ===== src/Cache/Memory/Reads.antt =====
-- What the methods of memory-cache.ts make of later reads.
use baileys_session_manager.Base.{
  ℕ, ◌+◌, ◌≤◌, ◌<◌, ◌≡◌, refl, sym, ◌∙◌, ◌≢◌, ◌⊎◌, Bool, inl, inr, none, some, [], ◌∷◌, ◌++◌, leb,
  ltb, if◌then◌else◌, Text, text_eq, text_eq_iff, text_eq_refl, starts_with, arith, Option-cases,
  Option, dec_lt,
}
use baileys_session_manager.Base.Map.{
  Map, lookup, remove, keys, Distinct, lookup-remove, lookup-append,
}
use baileys_session_manager.Cache.Memory.{
  CacheEntry, Versioned, MemoryCache, byte_length, get, set, delete, delete_each, delete_by_prefix,
  sweep_each, sweep_expired,
}
use baileys_session_manager.Cache.Memory.Eviction.{total, newest_fitting, newest_fitting_suffix}
use baileys_session_manager.Cache.Memory.Invariant.{
  IsValid, moved, fresh_entry, delete-holding, delete-IsValid, get-miss, get-hit, get-expired,
  set-newest_fitting, lookup-moved, total-append, moved-IsValid, set-IsValid,
}

-- What a read at the time `now` would return.
unfoldable pub visible : ℕ → Option CacheEntry → Option Versioned
visible now none = none
visible now (some e) =
    if ltb now e.expires_at then some (record { value = e.value; version = e.version }) else none

-- In a valid cache, a read returns the value and the version of the entry under the key, if there
-- is one that has not expired, and no later read of any key sees that it took place.
pub get-visible :
    (now : ℕ) (k : Text) (c : MemoryCache) (j : Text) (later : ℕ)
    → IsValid c
    → now ≤ later
    → ((get now k c).0 ≡ visible now (lookup k c.store))
      × (visible later (lookup j (get now k c).1.store) ≡ visible later (lookup j c.store))
unfolding visible
get-visible now k c j later v h = elim (Option-cases (lookup k c.store)) [
  | inl miss ↦ rw (get-miss now k c miss, miss) (refl, refl)
  | inr (e, hit) ↦ elim (dec_lt now e.expires_at) [
    | yes live ↦
        rw (get-hit now k c e v hit live, hit)
          (ground arith, ground (arith, lookup-moved k j e c.store, text_eq_iff k j))
    | no old ↦
        rw (get-expired now k c e v hit (omega arith), hit)
          (ground arith, ground (arith, lookup-remove k j c.store, text_eq_iff k j))
  ]
]

get-value :
    (now : ℕ) (k : Text) (c : MemoryCache)
    → IsValid c
    → (get now k c).0 ≡ visible now (lookup k c.store)
get-value now k c v = (get-visible now k c k now v (omega arith)).0

lookup-newest_fitting_last :
    (n b : ℕ) (k : Text) (e : CacheEntry) (m : Map CacheEntry)
    → lookup k m ≡ none
    → 1 ≤ n
    → e.byte_size ≤ b
    → lookup k (newest_fitting n b (m ++ (k, e) ∷ [])) ≡ some e
unfolding newest_fitting lookup total
lookup-newest_fitting_last n b k e [] h p q = ground (arith, text_eq_refl k)
lookup-newest_fitting_last n b k e ((i, w) ∷ m) h p q =
    ground
      (arith, lookup-newest_fitting_last n b k e m, lookup-append k m ((k, e) ∷ []), text_eq_refl k)

lookup-suffix :
    (j : Text) (older newer : Map CacheEntry)
    → Distinct (older ++ newer)
    → (lookup j newer ≡ none) ⊎ (lookup j newer ≡ lookup j (older ++ newer))
unfolding lookup
lookup-suffix j [] newer d = inr refl
lookup-suffix j ((i, w) ∷ older) newer d =
    ground (arith, lookup-suffix j older newer d.1, text_eq_iff i j)

module _ (now : ℕ) (k value : Text) (version : ℕ) (c : MemoryCache) (n : k ≢ [])
    (v : IsValid c) where
  lookup-set_ne :
      (j : Text)
      → k ≢ j
      → (lookup j (set now k value version c).store ≡ none)
        ⊎ (lookup j (set now k value version c).store ≡ lookup j c.store)
  lookup-set_ne j other =
      let e = fresh_entry now value version c in
      let m = moved k e c.store in
      let (older, p) = newest_fitting_suffix c.max_entries c.max_bytes m in
      rw (set-newest_fitting now k value version c n v) (
        ground (
          arith,
          lookup-suffix j older (newest_fitting c.max_entries c.max_bytes m)
              (rw p at (moved-IsValid k e c n refl v).distinct),
          lookup-moved k j e c.store,
          text_eq_iff k j,
        ))

  -- In a valid cache that may have an entry, a value that is no larger than the limit on the bytes
  -- and is stored under a key that is not empty is read back until its time to live is over.
  pub get-set :
      (later : ℕ)
      → 1 ≤ c.max_entries
      → byte_length value ≤ c.max_bytes
      → later < now + c.ttl_ms
      → (get later k (set now k value version c)).0
        ≡ some (record { value = value; version = version })
  unfolding visible
  get-set later room fits live =
      let e = fresh_entry now value version c in
      rw
        (
          get-value later k _ (set-IsValid now k value version c n v).0,
          set-newest_fitting now k value version c n v,
          lookup-newest_fitting_last c.max_entries c.max_bytes k e (remove k c.store)
              (ground (arith, lookup-remove k k c.store, text_eq_refl k)) room fits,
        )
        (ground arith)

  -- What is read in a valid cache under any key but that of a `set`, which is not empty, is the
  -- same as before it, or nothing.
  pub get-set_ne :
      (j : Text) (later : ℕ)
      → k ≢ j
      → ((get later j (set now k value version c)).0 ≡ none)
        ⊎ ((get later j (set now k value version c)).0 ≡ (get later j c).0)
  unfolding visible
  get-set_ne j later other = ground (
    arith,
    get-value later j c v,
    get-value later j (set now k value version c) (set-IsValid now k value version c n v).0,
    lookup-set_ne j other,
  )

newest_fitting_oversized :
    (n b : ℕ) (k : Text) (e : CacheEntry) (m : Map CacheEntry)
    → b < e.byte_size
    → newest_fitting n b (m ++ (k, e) ∷ []) ≡ []
unfolding newest_fitting total
newest_fitting_oversized n b k e [] h = ground arith
newest_fitting_oversized n b k e (x ∷ m) h =
    ground (arith, newest_fitting_oversized n b k e m h, total-append m ((k, e) ∷ []))

-- In a valid cache, a value that is larger than the whole cache may be, stored under a key that is
-- not empty, leaves the cache empty.
pub set_oversized :
    (now : ℕ) (k value : Text) (version : ℕ) (c : MemoryCache)
    → k ≢ []
    → IsValid c
    → c.max_bytes < byte_length value
    → (set now k value version c).store ≡ []
set_oversized now k value version c n v big =
    rw (set-newest_fitting now k value version c n v)
      (newest_fitting_oversized _ _ k (fresh_entry now value version c) (remove k c.store) big)

-- What the sweep leaves of an entry.
abbrev pub kept : ℕ → Option CacheEntry → Option CacheEntry
kept now none = none
kept now (some e) = if leb e.expires_at now then none else some e

abbrev swept : ℕ → Option CacheEntry → Option CacheEntry → Option CacheEntry
swept now none s = s
swept now (some e) s = if leb e.expires_at now then none else s

lookup-sweep_each :
    (now : ℕ) (j : Text) (m : Map CacheEntry) (c : MemoryCache)
    → Distinct m
    → IsValid c
    → lookup j (sweep_each now m c).store ≡ swept now (lookup j m) (lookup j c.store)
unfolding sweep_each lookup
lookup-sweep_each now j [] c d v = refl
lookup-sweep_each now j ((k, e) ∷ m) c d v = ground (
  arith,
  lookup-sweep_each now j m c d.1,
  lookup-sweep_each now j m (delete k c) d.1 (delete-IsValid k c v),
  delete-holding k c v,
  lookup-remove k j c.store,
  text_eq_iff k j,
)

-- In a valid cache, the sweep drops exactly the entries that have expired.
pub lookup-sweep_expired :
    (now : ℕ) (j : Text) (c : MemoryCache)
    → IsValid c
    → lookup j (sweep_expired now c).store ≡ kept now (lookup j c.store)
unfolding sweep_expired
lookup-sweep_expired now j c v = ground (arith, lookup-sweep_each now j c.store c v.distinct v)

lookup-delete_each :
    (test : Text → Bool) (j : Text) (m : Map CacheEntry) (c : MemoryCache)
    → IsValid c
    → lookup j (delete_each test (keys m) c).store ≡ elim (lookup j m) [
      | none ↦ lookup j c.store
      | some e ↦ if test j then none else lookup j c.store
    ]
unfolding delete_each lookup keys
lookup-delete_each test j [] c v = refl
lookup-delete_each test j ((k, e) ∷ m) c v = ground (
  arith,
  lookup-delete_each test j m c v,
  lookup-delete_each test j m (delete k c) (delete-IsValid k c v),
  delete-holding k c v,
  lookup-remove k j c.store,
  text_eq_iff k j,
)

-- In a valid cache, `deleteByPrefix` drops exactly the entries whose key starts with the prefix.
pub lookup-delete_by_prefix :
    (prefix j : Text) (c : MemoryCache)
    → IsValid c
    → lookup j (delete_by_prefix prefix c).store
      ≡ (if starts_with prefix j then none else lookup j c.store)
unfolding delete_by_prefix
lookup-delete_by_prefix prefix j c v =
    ground (arith, lookup-delete_each (starts_with prefix) j c.store c v)

-- What a read or a deletion leaves was there before.
pub lookup-get :
    (now : ℕ) (k j : Text) (c : MemoryCache) (e : CacheEntry)
    → IsValid c
    → lookup j (get now k c).1.store ≡ some e
    → lookup j c.store ≡ some e
lookup-get now k j c e v h = elim (Option-cases (lookup k c.store)) [
  | inl miss ↦ rw (get-miss now k c miss) at h
  | inr (e', hit) ↦ elim (dec_lt now e'.expires_at) [
    | yes live ↦
        let h' : lookup j (moved k e' c.store) ≡ some e = rw (get-hit now k c e' v hit live) at h in
        ground (arith, lookup-moved k j e' c.store, text_eq_iff k j)
    | no old ↦
        let h' : lookup j (remove k c.store) ≡ some e =
          rw (get-expired now k c e' v hit (omega arith)) at h in
        ground (arith, lookup-remove k j c.store)
  ]
]

pub lookup-delete :
    (k j : Text) (c : MemoryCache)
    → IsValid c
    → lookup j (delete k c).store ≡ (if text_eq k j then none else lookup j c.store)
lookup-delete k j c v = rw (delete-holding k c v) (lookup-remove k j c.store)

-- What `set` leaves is what it was given, or was there before.
pub lookup-set :
    (now : ℕ) (k value : Text) (version : ℕ) (c : MemoryCache) (j : Text) (e : CacheEntry)
    → k ≢ []
    → IsValid c
    → lookup j (set now k value version c).store ≡ some e
    → ((k ≡ j) × (e.value ≡ value)) ⊎ (lookup j c.store ≡ some e)
lookup-set now k value version c j e n v h =
    let e' = fresh_entry now value version c in
    let m = moved k e' c.store in
    let (older, p) = newest_fitting_suffix c.max_entries c.max_bytes m in
    let h' : lookup j (newest_fitting c.max_entries c.max_bytes m) ≡ some e =
      rw (set-newest_fitting now k value version c n v) at h in
    ground (
      arith,
      lookup-suffix j older (newest_fitting c.max_entries c.max_bytes m)
          (rw p at (moved-IsValid k e' c n refl v).distinct),
      lookup-moved k j e' c.store,
      text_eq_iff k j,
    )

-- Under the key that it was given, `set` leaves its value, or nothing.
pub lookup-set_self :
    (now : ℕ) (k value : Text) (version : ℕ) (c : MemoryCache) (e : CacheEntry)
    → k ≢ []
    → IsValid c
    → lookup k (set now k value version c).store ≡ some e
    → e.value ≡ value
lookup-set_self now k value version c e n v h =
    let e' = fresh_entry now value version c in
    let m = moved k e' c.store in
    let (older, p) = newest_fitting_suffix c.max_entries c.max_bytes m in
    let h' : lookup k (newest_fitting c.max_entries c.max_bytes m) ≡ some e =
      rw (set-newest_fitting now k value version c n v) at h in
    ground (
      arith,
      lookup-suffix k older (newest_fitting c.max_entries c.max_bytes m)
          (rw p at (moved-IsValid k e' c n refl v).distinct),
      lookup-moved k k e' c.store,
      text_eq_refl k,
    )

visible-some :
    (now : ℕ) (o : Option CacheEntry) (v : Versioned)
    → visible now o ≡ some v
    → (e : CacheEntry) × (o ≡ some e) × (e.value ≡ v.value)
unfolding visible
visible-some now none v h = absurd (ground arith)
visible-some now (some e) v h = (e, refl, ground arith)

-- A value that a read returns is the value of an entry.
pub get-some :
    (now : ℕ) (k : Text) (c : MemoryCache) (v : Versioned)
    → IsValid c
    → (get now k c).0 ≡ some v
    → (e : CacheEntry) × (lookup k c.store ≡ some e) × (e.value ≡ v.value)
get-some now k c v i h = visible-some now _ v (sym (get-value now k c i) ∙ h)
