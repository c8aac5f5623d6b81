-- ===== src/Cache/Memory/Calls.antt =====
-- Any sequence of calls of the methods of memory-cache.ts, each at its own time.
use baileys_session_manager.Base.{
  ℕ, ◌≤◌, ◌≡◌, ◌≢◌, Bool, inl, inr, some, List, [], ◌∷◌, leb, length-append, Text, arith,
  Bool-cases, Option-cases, Option, dec_lt,
}
use baileys_session_manager.Base.Map.{Map, lookup, remove, length-remove-le, length-remove-lt}
use baileys_session_manager.Cache.Memory
use baileys_session_manager.Cache.Memory.{CacheEntry, MemoryCache, create}
use baileys_session_manager.Cache.Memory.Eviction.{total, holding}
use baileys_session_manager.Cache.Memory.Invariant.{
  IsValid, IsBounded, total-remove, total-moved, moved, delete-holding, delete-IsValid, set-IsValid,
  get-IsValid, delete_each-IsValid, sweep_each-IsValid, get-miss, get-hit, get-expired,
}

pub data Call : Type 0 where
  get : Text → Call
  set : Text → Text → ℕ → Call
  delete : Text → Call
  delete_by_prefix : Text → Call
  clear destroy sweep_expired : Call

unfoldable pub step : ℕ → Call → MemoryCache → MemoryCache
step now (get key) c = (Memory.get now key c).1
step now (set key value version) c = Memory.set now key value version c
step now (delete key) c = Memory.delete key c
step now (delete_by_prefix prefix) c = Memory.delete_by_prefix prefix c
step now clear c = Memory.clear c
step now destroy c = Memory.destroy c
step now sweep_expired c = Memory.sweep_expired now c

unfoldable pub run : List (ℕ × Call) → MemoryCache → MemoryCache
run [] c = c
run ((now, call) ∷ calls) c = run calls (step now call c)

-- The program never stores under the empty key.
abbrev pub NamesKey : Call → Type 0
NamesKey (set key value version) = key ≢ []
NamesKey (get key) = Unit
NamesKey (delete key) = Unit
NamesKey (delete_by_prefix prefix) = Unit
NamesKey clear = Unit
NamesKey destroy = Unit
NamesKey sweep_expired = Unit

abbrev pub NameKeys : List (ℕ × Call) → Type 0
NameKeys [] = Unit
NameKeys ((now, call) ∷ calls) = NamesKey call × NameKeys calls

total-remove-le : (k : Text) (m : Map CacheEntry) → total (remove k m) ≤ total m
unfolding total remove
total-remove-le k [] = omega arith
total-remove-le k ((i, w) ∷ m) = ground (arith, total-remove-le k m)

remove-IsBounded :
    (k : Text) (c : MemoryCache)
    → IsValid c
    → IsBounded c
    → IsBounded (holding c (remove k c.store))
remove-IsBounded k c v b = record {
  within_entries = omega (arith, length-remove-le k c.store);
  within_bytes = omega (arith, total-remove-le k c.store);
}

delete-IsBounded :
    (k : Text) (c : MemoryCache) → IsValid c → IsBounded c → IsBounded (Memory.delete k c)
delete-IsBounded k c v b = rw (delete-holding k c v) (remove-IsBounded k c v b)

get-IsBounded :
    (now : ℕ) (k : Text) (c : MemoryCache)
    → IsValid c
    → IsBounded c
    → IsBounded (Memory.get now k c).1
get-IsBounded now k c v b = elim (Option-cases (lookup k c.store)) [
  | inl miss ↦ rw (get-miss now k c miss) b
  | inr (e, hit) ↦ elim (dec_lt now e.expires_at) [
    | yes live ↦ rw (get-hit now k c e v hit live) (record {
      within_entries =
          omega (
            arith,
            length-append (remove k c.store) ((k, e) ∷ []),
            length-remove-lt k c.store e hit,
          );
      within_bytes = moved_bytes e hit;
    })
    | no old ↦ rw (get-expired now k c e v hit (omega arith)) (remove-IsBounded k c v b)
  ]
]
  where
    moved_bytes :
        (e : CacheEntry) → lookup k c.store ≡ some e → total (moved k e c.store) ≤ c.max_bytes
    moved_bytes e hit = omega (
      arith,
      total-moved k e c.store,
      total-remove k c.store e v.distinct hit,
      v.counted,
      b.within_bytes,
    )

delete_each-IsBounded :
    (test : Text → Bool) (ks : List Text) (c : MemoryCache)
    → IsValid c
    → IsBounded c
    → IsBounded (Memory.delete_each test ks c)
unfolding Memory.delete_each
delete_each-IsBounded test [] c v b = b
delete_each-IsBounded test (k ∷ ks) c v b = elim (Bool-cases (test k)) [
  | inl hit ↦
      rw hit (delete_each-IsBounded test ks _ (delete-IsValid k c v) (delete-IsBounded k c v b))
  | inr miss ↦ rw miss (delete_each-IsBounded test ks c v b)
]

sweep_each-IsBounded :
    (now : ℕ) (m : Map CacheEntry) (c : MemoryCache)
    → IsValid c
    → IsBounded c
    → IsBounded (Memory.sweep_each now m c)
unfolding Memory.sweep_each
sweep_each-IsBounded now [] c v b = b
sweep_each-IsBounded now ((k, e) ∷ m) c v b = elim (Bool-cases (leb e.expires_at now)) [
  | inl old ↦
      rw old (sweep_each-IsBounded now m _ (delete-IsValid k c v) (delete-IsBounded k c v b))
  | inr live ↦ rw live (sweep_each-IsBounded now m c v b)
]

step-IsValid :
    (now : ℕ) (call : Call) (c : MemoryCache)
    → NamesKey call
    → IsValid c
    → IsBounded c
    → IsValid (step now call c) × IsBounded (step now call c)
unfolding step total Memory.delete_by_prefix Memory.sweep_expired Memory.clear Memory.destroy
step-IsValid now (get key) c n v b = (get-IsValid now key c v, get-IsBounded now key c v b)
step-IsValid now (set key value version) c n v b = set-IsValid now key value version c n v
step-IsValid now (delete key) c n v b = (delete-IsValid key c v, delete-IsBounded key c v b)
step-IsValid now (delete_by_prefix prefix) c n v b =
    (delete_each-IsValid _ _ c v, delete_each-IsBounded _ _ c v b)
step-IsValid now clear c n v b = omega arith
step-IsValid now destroy c n v b = omega arith
step-IsValid now sweep_expired c n v b =
    (sweep_each-IsValid now c.store c v, sweep_each-IsBounded now c.store c v b)

run_keeps :
    (calls : List (ℕ × Call)) (c : MemoryCache)
    → NameKeys calls
    → IsValid c
    → IsBounded c
    → IsValid (run calls c) × IsBounded (run calls c)
unfolding run
run_keeps [] c n v b = (v, b)
run_keeps ((now, call) ∷ calls) c n v b =
    let kept = step-IsValid now call c n.0 v b in
    run_keeps calls (step now call c) n.1 kept.0 kept.1

-- After any calls on a new cache, none of which stores under the empty key, `currentBytes` is the
-- sum of the sizes of the values that are stored, no key is stored twice, and neither the number
-- of entries nor the bytes exceed the configured limits.
pub run-create :
    (ttl_ms max_entries max_bytes : Option ℕ) (calls : List (ℕ × Call))
    → NameKeys calls
    → IsValid (run calls (create ttl_ms max_entries max_bytes))
      × IsBounded (run calls (create ttl_ms max_entries max_bytes))
unfolding create total
run-create ttl_ms max_entries max_bytes calls n = run_keeps calls _ n (omega arith) (omega arith)
