-- ===== src/Cache/Redis/Tcp.antt =====
-- src/cache/redis-tcp.ts.
use baileys_session_manager.Base.{
  ℕ, ◌≡◌, ap, sym, ◌∙◌, Bool, true, false, Option, none, some, Text, text, if◌then◌else◌, ◌&&◌,
}
use baileys_session_manager.Base.Exec.{ok, Exec, pure, ◌>>◌}
use baileys_session_manager.Cache.Memory.{Versioned}
use baileys_session_manager.Cache.Redis.{tcp, Redis, Laws}
use baileys_session_manager.Cache.Redis.Client.{
  Json, Client, IsJson, Keeps, get_entry, set_entry, del_entry,
}
use baileys_session_manager.Cache.Redis.Refinement.{entry_of, client-Laws}

abbrev pub invalidation_channel : Text
invalidation_channel = text "baileys-auth:invalidate"

-- The other methods of the client, and those of the duplicate that subscribes. `delivers` tells
-- whether Redis hands a message that it was just sent to this subscriber.
pub record TcpClient (R : Type 0) : Type 0 where
  pub commands : Client R
  pub publish : Text → Text → Exec R (Unit {0})
  pub quit : Exec R (Unit {0})
  pub delivers : Text → R → Bool
  pub subscribe : Text → Exec R (Unit {0})
  pub quit_subscriber : Exec R (Unit {0})

-- `subscriber` stands for `this.subscriber !== null`, and `listens` tells whether it has the
-- listener.
pub record Connection (R : Type 0) : Type 0 where
  pub subscriber : Bool
  pub listens : Bool
  pub state : R

module _ {R : Type 0} where
  abbrev pub on_state : {A : Type 0} → Exec R A → Exec (Connection R) A
  on_state m c = let (r, s) = m c.state in (r, record c { state = s })

  abbrev pub on_connection : Client R → Client (Connection R)
  on_connection client = record {
    get = λ k. on_state (client.get k);
    set = λ k payload ttl. on_state (client.set k payload ttl);
    del = λ k. on_state (client.del k);
  }

  -- `.catch(() => {})`
  abbrev pub swallow : Exec R (Unit {0}) → Exec R (Unit {0})
  swallow m r = (ok tt, (m r).1)

module _ {R : Type 0} (json : Json) (client : TcpClient R) where
  unfoldable pub get : Text → Exec (Connection R) (Option Versioned)
  get = get_entry json (on_connection client.commands)

  unfoldable pub set : Text → Text → ℕ → Option ℕ → Exec (Connection R) (Unit {0})
  set = set_entry json (on_connection client.commands)

  unfoldable pub del : Text → Exec (Connection R) (Unit {0})
  del = del_entry json (on_connection client.commands)

  unfoldable pub publish_invalidation : Text → Exec (Connection R) (Unit {0})
  publish_invalidation key = on_state (client.publish invalidation_channel key)

  unfoldable pub subscribe_invalidation : Exec (Connection R) (Unit {0})
  subscribe_invalidation = do
    λ c. (ok tt, record c { subscriber = true; listens = false })
    on_state (client.subscribe invalidation_channel)
    λ c. (ok tt, record c { listens = true })

  unfoldable pub close : Exec (Connection R) (Unit {0})
  close c =
      (on_state (if c.subscriber then swallow client.quit_subscriber else pure tt)
          >> on_state (swallow client.quit))
        c

  -- The cache manager sets entries without an expiry.
  unfoldable pub tcp_cache : Redis (Connection R)
  tcp_cache = record {
    mode = tcp;
    get = get;
    set = λ key value version. set key value version none;
    del = del;
    publish_invalidation = some publish_invalidation;
    delivered = λ key c. c.listens && client.delivers key c.state;
    close = close;
  }

-- Over a connection to a Redis that keeps to its documented behaviour, may fail at any time and
-- changes nothing that is stored when it publishes, and with a JSON that parses what it wrote to
-- what it was, the cache in TCP mode does what the cache manager relies on: an entry that is read
-- is the one that is stored, and a read changes nothing that is stored; a `set` that returns has
-- stored its value and version, and after one that fails there is under its key what it wrote,
-- what was there before, or nothing; a `del` that returns has removed the entry; no `set` or `del`
-- changes another key; and `publishInvalidation` changes nothing that is stored.
pub tcp_cache-Laws :
    {R : Type 0} (json : Json) (client : TcpClient R) (texts : R → Text → Option Text)
    → IsJson json
    → Keeps client.commands texts
    → ((k : Text) (r : R) → texts (client.publish invalidation_channel k r).1 ≡ texts r)
    → Laws (tcp_cache json client) (λ c k. entry_of json (texts c.state k))
unfolding tcp_cache get set del publish_invalidation
tcp_cache-Laws {R = R} json client texts is keeps published =
    client-Laws json is (on_connection client.commands) (λ c. texts c.state)
      (record {
        texts-get = λ k c. keeps.texts-get k c.state;
        get_lem = λ k c raw e. keeps.get_lem k c.state raw e;
        set_lem = λ k payload ttl c e. keeps.set_lem k payload ttl c.state e;
        set_other = λ k payload ttl c j ne. keeps.set_other k payload ttl c.state j ne;
        set_failed = λ k payload ttl c raw e. keeps.set_failed k payload ttl c.state raw e;
        del_lem = λ k c e. keeps.del_lem k c.state e;
        del_other = λ k c j ne. keeps.del_other k c.state j ne;
      })
      tcp (some (publish_invalidation json client)) (close json client)
      (λ key c. c.listens && client.delivers key c.state)
      (λ p k c e. ap (λ q. texts (q k c).1.state) (sym (given p e)) ∙ published k c.state)
  where
    given :
        (p : Text → Exec (Connection R) (Unit {0}))
        → some (publish_invalidation json client) ≡ some p
        → publish_invalidation json client ≡ p
    given p e = cc
