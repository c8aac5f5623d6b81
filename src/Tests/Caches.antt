-- ===== src/Tests/Caches.antt =====
-- The memory cache at concrete inputs.
use baileys_session_manager.Base.{
  ℕ, ◌≡◌, ◌≢◌, refl, none, some, List, [], ◌∷◌, text, text_eq, arith,
}
use baileys_session_manager.Base.Map.{lookup, insert, remove}
use baileys_session_manager.Cache.Memory
use baileys_session_manager.Cache.Memory.{
  byte_length, put, evict_if_needed, evict_loop, over_limit, delete, get, set, delete_by_prefix,
  sweep_expired, MemoryCache, CacheEntry, Versioned, create,
}
use baileys_session_manager.Cache.Memory.Calls
use baileys_session_manager.Cache.Memory.Calls.{Call, run, run-create}
use baileys_session_manager.Cache.Memory.Eviction.{newest_fitting, holding}
use baileys_session_manager.Cache.Memory.Invariant.{
  IsValid, IsBounded, set-newest_fitting, moved, fresh_entry,
}
use baileys_session_manager.Cache.Memory.Reads.{visible, get-visible, get-set, set_oversized}

program : Unit {0}
unfolding run Calls.step create Memory.set put evict_if_needed evict_loop over_limit delete
    byte_length text_eq lookup insert remove
program = tt

abbrev calls : List (ℕ × Call)
calls =
    (0, Calls.set (text "s:a") (text "one") 1) ∷ (5, Calls.set (text "s:ab") (text "two") 1) ∷ []

abbrev filled : MemoryCache
filled = run calls (create none none (some 5))

calls-named : Calls.NameKeys calls
calls-named = (λ e. cc, (λ e. cc, tt))

run-create_example : IsValid filled × IsBounded filled
run-create_example = run-create none none (some 5) calls calls-named

filled-IsValid : IsValid filled
filled-IsValid = (run-create none none (some 5) calls calls-named).0

a-named : text "s:a" ≢ []
a-named = λ e. cc

set-newest_fitting_example :
    Memory.set 9 (text "s:a") (text "new") 2 filled
    ≡ holding filled (
        newest_fitting filled.max_entries filled.max_bytes
          (moved (text "s:a") (fresh_entry 9 (text "new") 2 filled) filled.store))
set-newest_fitting_example =
    set-newest_fitting 9 (text "s:a") (text "new") 2 filled a-named filled-IsValid

get-visible_example :
    ((Memory.get 9 (text "s:ab") filled).0 ≡ visible 9 (lookup (text "s:ab") filled.store))
    × (visible 10 (lookup (text "s:ab") (Memory.get 9 (text "s:ab") filled).1.store)
        ≡ visible 10 (lookup (text "s:ab") filled.store))
get-visible_example =
    get-visible 9 (text "s:ab") filled (text "s:ab") 10 filled-IsValid (omega arith)

get-set_example :
    (Memory.get 20 (text "s:a") (Memory.set 9 (text "s:a") (text "new") 2 filled)).0
    ≡ some (record { value = text "new"; version = 2 })
unfolding program
get-set_example =
    get-set 9 (text "s:a") (text "new") 2 filled a-named filled-IsValid 20 (omega arith)
      (omega arith) (omega arith)

set_oversized_example : (Memory.set 9 (text "s:a") (text "long value") 2 filled).store ≡ []
unfolding program
set_oversized_example =
    set_oversized 9 (text "s:a") (text "long value") 2 filled a-named filled-IsValid (omega arith)

stored : lookup (text "s:a") filled.store ≡ none
unfolding program
stored = refl
