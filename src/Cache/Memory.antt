-- ===== src/Cache/Memory.antt =====
-- src/cache/memory-cache.ts: the L1 cache, a `Map` used as an LRU. `Date.now()` is an argument.
mod Bytes
pub mod Eviction
pub mod Invariant
pub mod Calls
pub mod Reads
unfoldable pub use Bytes.{byte_length}
use baileys_session_manager.Base.{
  ℕ, zero, suc, ◌+◌, ◌-◌, ◌*◌, ◌/◌, min, max, Bool, true, false, ◌&&◌, ◌||◌, not, Option, none,
  some, List, [], ◌∷◌, ◌++◌, ltb, leb, if◌then◌else◌, length, Text, text_eq, starts_with,
}
use baileys_session_manager.Base.Map.{Map, lookup, insert, remove, keys}

pub record CacheEntry : Type 0 where
  pub value : Text
  pub version : ℕ
  pub expires_at : ℕ
  pub byte_size : ℕ

-- What a read returns.
pub record Versioned : Type 0 where
  pub value : Text
  pub version : ℕ

-- `sweeping` stands for `sweepTimer !== null`.
pub record MemoryCache : Type 0 where
  pub store : Map CacheEntry
  pub ttl_ms : ℕ
  pub max_entries : ℕ
  pub max_bytes : ℕ
  pub current_bytes : ℕ
  pub sweeping : Bool

abbrev pub default_ttl_ms : ℕ
default_ttl_ms = 30_000

abbrev pub default_max_entries : ℕ
default_max_entries = 5_000

abbrev pub default_max_bytes : ℕ
default_max_bytes = 25 * 1024 * 1024

-- `option ?? fallback`
abbrev pub or_default {ℓ} : {A : Type ℓ} → Option A → A → A
or_default none d = d
or_default (some a) d = a

unfoldable pub create : Option ℕ → Option ℕ → Option ℕ → MemoryCache
create ttl_ms max_entries max_bytes = record {
  store = [];
  ttl_ms = or_default ttl_ms default_ttl_ms;
  max_entries = or_default max_entries default_max_entries;
  max_bytes = or_default max_bytes default_max_bytes;
  current_bytes = 0;
  sweeping = true;
}

-- The period of the sweep timer, in whole milliseconds.
unfoldable pub sweep_interval_ms : ℕ → ℕ
sweep_interval_ms ttl_ms = min (max (ttl_ms / 2) 50) 5000

-- The branches of `delete`, on what the `Map` holds for the key.
delete_found : Text → Option CacheEntry → MemoryCache → MemoryCache
delete_found key none c = c
delete_found key (some entry) c = record c {
  current_bytes = c.current_bytes - entry.byte_size;
  store = remove key c.store;
}

unfoldable pub delete : Text → MemoryCache → MemoryCache
unfolding delete_found
delete key c = delete_found key (lookup key c.store) c

-- The branches of `get`. A hit is moved to the end, as the most recently used.
get_found : ℕ → Text → Option CacheEntry → MemoryCache → Option Versioned × MemoryCache
get_found now key none c = (none, c)
get_found now key (some entry) c =
    if leb entry.expires_at now
    then (
      none,
      record c { store = remove key c.store; current_bytes = c.current_bytes - entry.byte_size },
    )
    else (
      some (record { value = entry.value; version = entry.version }),
      record c { store = insert key entry (remove key c.store) },
    )

unfoldable pub get : ℕ → Text → MemoryCache → Option Versioned × MemoryCache
unfolding get_found
get now key c = get_found now key (lookup key c.store) c

-- The test of the eviction loop, but for `size > 0`.
unfoldable pub over_limit : MemoryCache → Bool
over_limit c = ltb c.max_entries (length c.store) || ltb c.max_bytes c.current_bytes

-- `if (!oldestKey) break`: the empty text is falsy too.
evict_oldest : Map CacheEntry → (MemoryCache → MemoryCache) → MemoryCache → MemoryCache
unfolding delete
evict_oldest [] next c = c
evict_oldest (([], entry) ∷ rest) next c = c
evict_oldest ((u ∷ oldest_key, entry) ∷ rest) next c = next (delete (u ∷ oldest_key) c)

-- The `while` loop. Each round drops an entry, so the number of entries is enough fuel.
unfoldable pub evict_loop : ℕ → MemoryCache → MemoryCache
unfolding over_limit evict_oldest
evict_loop zero c = c
evict_loop (suc fuel) c = elim (over_limit c) [
  | true ↦ evict_oldest c.store (evict_loop fuel) c
  | false ↦ c
]

unfoldable pub evict_if_needed : MemoryCache → MemoryCache
unfolding evict_loop
evict_if_needed c = evict_loop (length c.store) c

-- What `set` stores before it evicts.
unfoldable pub put : ℕ → Text → Text → ℕ → MemoryCache → MemoryCache
put now key value version c =
    let c' = delete key c in
    record c' {
      store =
          insert key
            (record {
              value = value;
              version = version;
              expires_at = now + c'.ttl_ms;
              byte_size = byte_length value;
            })
            c'.store;
      current_bytes = c'.current_bytes + byte_length value;
    }

unfoldable pub set : ℕ → Text → Text → ℕ → MemoryCache → MemoryCache
set now key value version c = evict_if_needed (put now key value version c)

-- A loop over the keys that deletes those that pass the test.
unfoldable pub delete_each : (Text → Bool) → List Text → MemoryCache → MemoryCache
delete_each test [] c = c
delete_each test (key ∷ rest) c = delete_each test rest (if test key then delete key c else c)

unfoldable pub delete_by_prefix : Text → MemoryCache → MemoryCache
delete_by_prefix prefix c = delete_each (starts_with prefix) (keys c.store) c

unfoldable pub clear : MemoryCache → MemoryCache
clear c = record c { store = []; current_bytes = 0 }

unfoldable pub size : MemoryCache → ℕ
size c = length c.store

unfoldable pub approximate_bytes : MemoryCache → ℕ
approximate_bytes c = c.current_bytes

unfoldable pub destroy : MemoryCache → MemoryCache
unfolding clear
destroy c = clear (record c { sweeping = false })

-- The loop of `sweepExpired`, over the entries that the `Map` holds at its start.
unfoldable pub sweep_each : ℕ → Map CacheEntry → MemoryCache → MemoryCache
sweep_each now [] c = c
sweep_each now ((key, entry) ∷ rest) c =
    sweep_each now rest (if leb entry.expires_at now then delete key c else c)

unfoldable pub sweep_expired : ℕ → MemoryCache → MemoryCache
sweep_expired now c = sweep_each now c.store c
