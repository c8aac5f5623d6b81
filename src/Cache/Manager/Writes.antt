-- ===== src/Cache/Manager/Writes.antt =====
-- What a read of cache-manager.ts sees of a write before it.
use baileys_session_manager.Base.{ℕ, ◌≡◌, ◌≤◌, ◌<◌, ◌+◌, refl, ap, ◌∙◌, false, none, some, Text}
use baileys_session_manager.Base.Exec.{ok}
use baileys_session_manager.Cache.Memory
use baileys_session_manager.Cache.Memory.{MemoryCache, Versioned, byte_length}
use baileys_session_manager.Cache.Memory.Invariant.{IsValid}
use baileys_session_manager.Cache.Memory.Reads.{get-set}
use baileys_session_manager.Cache.Manager.{
  CacheManager, World, cache_key, cache_key-ne-nil, get, on_written, mode_is_http, from_l1,
  below_l1,
}
use baileys_session_manager.Cache.Manager.Effects.{on_written_alone}

module _ {D R : Type 0} (m : CacheManager D R) where
  -- But in HTTP mode, a hit of L1 is the answer.
  get_hit :
      (now later : ℕ) (sid key : Text) (v : Versioned) (w : World D R)
      → mode_is_http m.l2 ≡ false
      → (Memory.get now (cache_key sid key) w.l1).0 ≡ some v
      → (get m now later sid key w).0 ≡ ok (some v.value)
  unfolding get from_l1 below_l1
  get_hit now later sid key v w trusted hit = rw (hit, trusted) refl

  -- If there is no Redis, and L1 is valid and may have an entry, then after `onWritten` a read of
  -- the same key returns the value that was written, until its time to live in L1 is over, if it is
  -- no larger than L1 may be: whatever the database does.
  pub get-on_written :
      (now at later : ℕ) (sid key value : Text) (version : ℕ) (w : World D R)
      → IsValid w.l1
      → 1 ≤ w.l1.max_entries
      → byte_length value ≤ w.l1.max_bytes
      → at < now + w.l1.ttl_ms
      → m.l2 ≡ none
      → (get m at later sid key (on_written m now sid key value version w).1).0 ≡ ok (some value)
  get-on_written now at later sid key value version w v room fits live alone =
      let k = cache_key sid key in
      ap (λ o. (get m at later sid key o.1).0)
        (on_written_alone m now sid key value version w alone)
      ∙ get_hit at later sid key (record { value = value; version = version })
          (record w { l1 = Memory.set now k value version w.l1 }) (ap mode_is_http alone)
          (get-set now k value version w.l1 (cache_key-ne-nil sid key) v at room fits live)
