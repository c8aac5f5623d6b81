-- ===== src/Cache/Memory/Invariant.antt =====
-- What every method of memory-cache.ts keeps.
use baileys_session_manager.Base.{
  ℕ, ◌+◌, ◌≤◌, ◌≡◌, refl, ◌∙◌, ◌≢◌, Bool, inl, inr, none, some, List, [], ◌∷◌, ◌++◌, leb,
  if◌then◌else◌, length, ap, Text, text_eq, text_eq_iff, text_eq_refl, arith, Bool-cases,
  Option-cases, ◌<◌, dec_lt,
}
use baileys_session_manager.Base.Map.{
  Map, lookup, insert, remove, Distinct, Every, remove_absent, lookup-remove, lookup-insert,
  remove-Distinct, insert-Distinct, remove-Every, insert-Every, insert_absent,
  Distinct-append_right, Every-append_right, lookup-Every,
}
use baileys_session_manager.Cache.Memory.{
  CacheEntry, MemoryCache, byte_length, get, delete, put, set, delete_each, sweep_each,
  evict_if_needed,
}
use baileys_session_manager.Cache.Memory.Eviction.{
  total, newest_fitting, Named, holding, evict_loop_lem, newest_fitting_fits, newest_fitting_suffix,
}

abbrev pub Sized : Map CacheEntry → Type 0
Sized = Every (λ _ e. e.byte_size ≡ byte_length e.value)

-- The keys are distinct and not empty, each entry's size is that of its value, and the sizes
-- are counted.
pub record IsValid (c : MemoryCache) : Type 0 where
  pub distinct : Distinct c.store
  pub named : Named c.store
  pub sized : Sized c.store
  pub counted : c.current_bytes ≡ total c.store

-- The limits hold.
pub record IsBounded (c : MemoryCache) : Type 0 where
  pub within_entries : length c.store ≤ c.max_entries
  pub within_bytes : c.current_bytes ≤ c.max_bytes

pub total-remove :
    (k : Text) (m : Map CacheEntry) (e : CacheEntry)
    → Distinct m
    → lookup k m ≡ some e
    → total (remove k m) + e.byte_size ≡ total m
unfolding total lookup remove
total-remove k [] e d h = cc
total-remove k ((i, w) ∷ m) e d h =
    ground (arith, total-remove k m e d.1, text_eq_iff i k, remove_absent i m d.0)

pub total-append : (m n : Map CacheEntry) → total (m ++ n) ≡ total m + total n
unfolding total
total-append [] n = omega arith
total-append (e ∷ m) n = omega (arith, total-append m n)

pub delete-holding :
    (k : Text) (c : MemoryCache) → IsValid c → delete k c ≡ holding c (remove k c.store)
unfolding delete
delete-holding k c v = elim (Option-cases (lookup k c.store)) [
  | inl miss ↦ rw (miss, delete, remove_absent k c.store miss) (ground (arith, v.counted))
  | inr (e, hit) ↦
      rw (hit, delete) (ground (arith, v.counted, total-remove k c.store e v.distinct hit))
]

pub remove-IsValid :
    (k : Text) (c : MemoryCache) → IsValid c → IsValid (holding c (remove k c.store))
remove-IsValid k c v = record {
  distinct = remove-Distinct k c.store v.distinct;
  named = remove-Every _ k c.store v.named;
  sized = remove-Every _ k c.store v.sized;
  counted = refl;
}

-- To put an entry at the end, in place of the one that the key had.
abbrev pub moved : Text → CacheEntry → Map CacheEntry → Map CacheEntry
moved k e m = remove k m ++ (k, e) ∷ []

pub insert-moved :
    (k : Text) (e : CacheEntry) (m : Map CacheEntry) → insert k e (remove k m) ≡ moved k e m
insert-moved k e m =
    insert_absent k e (remove k m) (ground (arith, lookup-remove k k m, text_eq_refl k))

pub lookup-moved :
    (k j : Text) (e : CacheEntry) (m : Map CacheEntry)
    → lookup j (moved k e m) ≡ (if text_eq k j then some e else lookup j m)
lookup-moved k j e m =
    rw (← insert-moved k e m)
      (ground (arith, lookup-insert k j e (remove k m), lookup-remove k j m))

pub total-moved :
    (k : Text) (e : CacheEntry) (m : Map CacheEntry)
    → total (moved k e m) ≡ total (remove k m) + e.byte_size
unfolding total
total-moved k e m = omega (arith, total-append (remove k m) ((k, e) ∷ []))

pub moved-IsValid :
    (k : Text) (e : CacheEntry) (c : MemoryCache)
    → k ≢ []
    → e.byte_size ≡ byte_length e.value
    → IsValid c
    → IsValid (holding c (moved k e c.store))
moved-IsValid k e c n s v = rw (← insert-moved k e c.store) (record {
  distinct = insert-Distinct k e (remove k c.store) (remove-Distinct k c.store v.distinct);
  named = insert-Every _ k e (remove k c.store) n (remove-Every _ k c.store v.named);
  sized = insert-Every _ k e (remove k c.store) s (remove-Every _ k c.store v.sized);
  counted = refl;
})

pub suffix-IsValid :
    (older newer : Map CacheEntry) (c : MemoryCache)
    → c.store ≡ older ++ newer
    → IsValid c
    → IsValid (holding c newer)
suffix-IsValid older newer c p v = record {
  distinct = Distinct-append_right older newer (rw p at v.distinct);
  named = Every-append_right _ older newer (rw p at v.named);
  sized = Every-append_right _ older newer (rw p at v.sized);
  counted = refl;
}

-- The eviction loop ends by its test, and leaves the longest end of the list that fits.
pub evict-newest_fitting :
    (c : MemoryCache)
    → IsValid c
    → evict_if_needed c ≡ holding c (newest_fitting c.max_entries c.max_bytes c.store)
unfolding evict_if_needed
evict-newest_fitting c v =
    let e : c ≡ holding c c.store = ground (arith, v.counted) in
    ap evict_if_needed e
    ∙ evict_loop_lem (length c.store) c c.store (omega arith) v.distinct v.named

-- What `set` stores.
abbrev pub fresh_entry : ℕ → Text → ℕ → MemoryCache → CacheEntry
fresh_entry now value version c = record {
  value = value;
  version = version;
  expires_at = now + c.ttl_ms;
  byte_size = byte_length value;
}

module _ (now : ℕ) (k value : Text) (version : ℕ) (c : MemoryCache) where
  put-holding :
      IsValid c
      → put now k value version c ≡ holding c (moved k (fresh_entry now value version c) c.store)
  unfolding put
  put-holding v =
      let e = fresh_entry now value version c in
      ground (arith, delete-holding k c v, insert-moved k e c.store, total-moved k e c.store)

  -- In a valid cache, `set` with a key that is not empty puts the entry at the end, and keeps the
  -- longest end of the entries, in the order of their last use, that the limits on the number and
  -- on the bytes allow.
  pub set-newest_fitting :
      k ≢ []
      → IsValid c
      → set now k value version c
        ≡ holding c (
            newest_fitting c.max_entries c.max_bytes
              (moved k (fresh_entry now value version c) c.store))
  unfolding set
  set-newest_fitting n v =
      let e = fresh_entry now value version c in
      rw (put-holding v) (evict-newest_fitting _ (moved-IsValid k e c n refl v))

module _ (now : ℕ) (k : Text) (c : MemoryCache) where
  pub get-miss : lookup k c.store ≡ none → get now k c ≡ (none, c)
  unfolding get
  get-miss h = rw (h, get)

  pub get-expired :
      (e : CacheEntry)
      → IsValid c
      → lookup k c.store ≡ some e
      → e.expires_at ≤ now
      → get now k c ≡ (none, holding c (remove k c.store))
  unfolding get
  get-expired e v h old =
      rw (h, get) (ground (arith, v.counted, total-remove k c.store e v.distinct h))

  pub get-hit :
      (e : CacheEntry)
      → IsValid c
      → lookup k c.store ≡ some e
      → now < e.expires_at
      → get now k c
        ≡ (some (record { value = e.value; version = e.version }), holding c (moved k e c.store))
  unfolding get
  get-hit e v h live =
      rw (h, get)
        (ground (
          arith,
          v.counted,
          total-remove k c.store e v.distinct h,
          insert-moved k e c.store,
          total-moved k e c.store,
        ))

pub get-IsValid : (now : ℕ) (k : Text) (c : MemoryCache) → IsValid c → IsValid (get now k c).1
get-IsValid now k c v = elim (Option-cases (lookup k c.store)) [
  | inl miss ↦ rw (get-miss now k c miss) v
  | inr (e, hit) ↦ elim (dec_lt now e.expires_at) [
    | yes live ↦ rw (get-hit now k c e v hit live) (
        moved-IsValid k e c (lookup-Every _ k c.store e v.named hit)
          (lookup-Every _ k c.store e v.sized hit) v)
    | no old ↦ rw (get-expired now k c e v hit (omega arith)) (remove-IsValid k c v)
  ]
]

pub delete-IsValid : (k : Text) (c : MemoryCache) → IsValid c → IsValid (delete k c)
delete-IsValid k c v = rw (delete-holding k c v) (remove-IsValid k c v)

pub set-IsValid :
    (now : ℕ) (k value : Text) (version : ℕ) (c : MemoryCache)
    → k ≢ []
    → IsValid c
    → IsValid (set now k value version c) × IsBounded (set now k value version c)
set-IsValid now k value version c n v =
    let e = fresh_entry now value version c in
    let m = moved k e c.store in
    let (older, p) = newest_fitting_suffix c.max_entries c.max_bytes m in
    rw (set-newest_fitting now k value version c n v) (
      suffix-IsValid older _ (holding c m) p (moved-IsValid k e c n refl v),
      omega (arith, newest_fitting_fits c.max_entries c.max_bytes m),
    )

pub delete_each-IsValid :
    (test : Text → Bool) (ks : List Text) (c : MemoryCache)
    → IsValid c
    → IsValid (delete_each test ks c)
unfolding delete_each
delete_each-IsValid test [] c v = v
delete_each-IsValid test (k ∷ ks) c v = elim (Bool-cases (test k)) [
  | inl hit ↦ rw hit (delete_each-IsValid test ks (delete k c) (delete-IsValid k c v))
  | inr miss ↦ rw miss (delete_each-IsValid test ks c v)
]

pub sweep_each-IsValid :
    (now : ℕ) (m : Map CacheEntry) (c : MemoryCache) → IsValid c → IsValid (sweep_each now m c)
unfolding sweep_each
sweep_each-IsValid now [] c v = v
sweep_each-IsValid now ((k, e) ∷ m) c v = elim (Bool-cases (leb e.expires_at now)) [
  | inl old ↦ rw old (sweep_each-IsValid now m (delete k c) (delete-IsValid k c v))
  | inr live ↦ rw live (sweep_each-IsValid now m c v)
]
