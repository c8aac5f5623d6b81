-- ===== src/Cache/Memory/Eviction.antt =====
-- The eviction loop of memory-cache.ts, against the newest entries that fit the limits.
use baileys_session_manager.Base.{
  ℕ, zero, suc, ◌+◌, ◌≤◌, ◌≡◌, refl, ◌≢◌, ◌&&◌, inl, inr, none, [], ◌∷◌, ◌++◌, leb, if◌then◌else◌,
  length, length-append, ap, Text, text_eq_refl, arith, Bool-cases,
}
use baileys_session_manager.Base.Map.{Map, lookup, remove, Distinct, Every, remove_absent}
use baileys_session_manager.Cache.Memory.{CacheEntry, MemoryCache, delete, evict_loop}

unfoldable pub total : Map CacheEntry → ℕ
total [] = 0
total ((k, e) ∷ m) = e.byte_size + total m

-- The longest end of the list within the limits: the entries that were used last.
unfoldable pub newest_fitting : ℕ → ℕ → Map CacheEntry → Map CacheEntry
unfolding total
newest_fitting max_entries max_bytes [] = []
newest_fitting max_entries max_bytes (e ∷ m) =
    let rest = newest_fitting max_entries max_bytes m in
    if leb (length (e ∷ m)) max_entries && leb (total (e ∷ m)) max_bytes then e ∷ m else rest

abbrev pub Named : Map CacheEntry → Type 0
Named = Every (λ k _. k ≢ [])

-- The cache with other entries, and their bytes counted.
abbrev pub holding : MemoryCache → Map CacheEntry → MemoryCache
holding c m = record c { store = m; current_bytes = total m }

delete_oldest :
    (c : MemoryCache) (k : Text) (e : CacheEntry) (m : Map CacheEntry)
    → lookup k m ≡ none
    → delete k (holding c ((k, e) ∷ m)) ≡ holding c m
unfolding delete total lookup remove
delete_oldest c k e m h = ground (arith, text_eq_refl k, remove_absent k m h)

pub evict_loop_lem :
    (fuel : ℕ) (c : MemoryCache) (m : Map CacheEntry)
    → length m ≤ fuel
    → Distinct m
    → Named m
    → evict_loop fuel (holding c m) ≡ holding c (newest_fitting c.max_entries c.max_bytes m)
unfolding evict_loop newest_fitting total
evict_loop_lem zero c [] f d n = refl
evict_loop_lem zero c (e ∷ m) f d n = absurd (omega arith)
evict_loop_lem (suc fuel) c [] f d n = ground arith
evict_loop_lem (suc fuel) c (([], e) ∷ m) f d n = absurd (n.0 refl)
evict_loop_lem (suc fuel) c ((u ∷ k, e) ∷ m) f d n =
    ground (arith, delete_oldest c (u ∷ k) e m d.0, evict_loop_lem fuel c m (omega arith) d.1 n.1)

pub newest_fitting_fits :
    (n b : ℕ) (m : Map CacheEntry)
    → (length (newest_fitting n b m) ≤ n) × (total (newest_fitting n b m) ≤ b)
unfolding newest_fitting total
newest_fitting_fits n b [] = omega arith
newest_fitting_fits n b (e ∷ m) = ground (arith, newest_fitting_fits n b m)

pub newest_fitting_suffix :
    (n b : ℕ) (m : Map CacheEntry) → (older : Map CacheEntry) × (m ≡ older ++ newest_fitting n b m)
unfolding newest_fitting
newest_fitting_suffix n b [] = ([], refl)
newest_fitting_suffix n b (e ∷ m) =
    let (older, p) = newest_fitting_suffix n b m in
    elim (Bool-cases (leb (length (e ∷ m)) n && leb (total (e ∷ m)) b)) [
      | inl fits ↦ ([], rw fits)
      | inr more ↦ (e ∷ older, rw more (ap (◌∷◌ e) p))
    ]

-- No longer end of the list fits.
pub newest_fitting_longest :
    (n b : ℕ) (m older newer : Map CacheEntry)
    → m ≡ older ++ newer
    → length newer ≤ n
    → total newer ≤ b
    → length newer ≤ length (newest_fitting n b m)
unfolding newest_fitting total
newest_fitting_longest n b [] [] newer p h k = rw (← p) (omega arith)
newest_fitting_longest n b [] (o ∷ older) newer p h k = cc
newest_fitting_longest n b (e ∷ m) [] newer p h k = ground (arith, ap length p, ap total p)
newest_fitting_longest n b (e ∷ m) (o ∷ older) newer p h k = ground (
  arith,
  newest_fitting_longest n b m older newer,
  newest_fitting_suffix n b m,
  length-append older newer,
)
