-- ===== src/Cache/Redis/Http.antt =====
-- src/cache/redis-http.ts.
use baileys_session_manager.Base.{ℕ, false, Option, none, Text, arith}
use baileys_session_manager.Base.Exec.{Exec, pure}
use baileys_session_manager.Cache.Memory.{Versioned}
use baileys_session_manager.Cache.Redis.{http, Redis, Laws}
use baileys_session_manager.Cache.Redis.Client.{
  Json, Client, IsJson, Keeps, get_entry, set_entry, del_entry,
}
use baileys_session_manager.Cache.Redis.Refinement.{entry_of, client-Laws}

module _ {R : Type 0} (json : Json) (client : Client R) where
  unfoldable pub get : Text → Exec R (Option Versioned)
  get = get_entry json client

  unfoldable pub set : Text → Text → ℕ → Option ℕ → Exec R (Unit {0})
  set = set_entry json client

  unfoldable pub del : Text → Exec R (Unit {0})
  del = del_entry json client

  unfoldable pub close : Exec R (Unit {0})
  close = pure tt

  -- The cache manager sets entries without an expiry.
  unfoldable pub http_cache : Redis R
  http_cache = record {
    mode = http;
    get = get;
    set = λ key value version. set key value version none;
    del = del;
    publish_invalidation = none;
    delivered = λ key r. false;
    close = close;
  }

-- Over a REST client of a Redis that keeps to its documented behaviour and may fail at any time,
-- and with a JSON that parses what it wrote to what it was, the cache in HTTP mode does what the
-- cache manager relies on: an entry that is read is the one that is stored, and a read changes
-- nothing that is stored; a `set` that returns has stored its value and version, and after one
-- that fails there is under its key what it wrote, what was there before, or nothing; a `del` that
-- returns has removed the entry; no `set` or `del` changes another key.
pub http_cache-Laws :
    {R : Type 0} (json : Json) (client : Client R) (texts : R → Text → Option Text)
    → IsJson json
    → Keeps client texts
    → Laws (http_cache json client) (λ r k. entry_of json (texts r k))
unfolding http_cache get set del close
http_cache-Laws json client texts is keeps =
    client-Laws json is client texts keeps http none (pure tt) (λ key r. false)
      (λ p k r e. absurd (ground arith))
