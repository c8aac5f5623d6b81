-- ===== src/Adapters/Postgres/Refinement.antt =====
-- What callers rely on, for the adapter of PostgreSQL.
use baileys_session_manager.Base.{◌≡◌, true, List, refl}
use baileys_session_manager.Adapter.{Laws}
use baileys_session_manager.Utils.Retry.{RetryOptions}
use baileys_session_manager.Adapters.Table.{Row}
use baileys_session_manager.Adapters.Table.Requests.{Server, Serves}
use baileys_session_manager.Adapters.Table.Client.Reads.{visible, IsKeyed, create_table-table}
use baileys_session_manager.Adapters.Table.Client.Refinement.{adapter-Laws}
use baileys_session_manager.Adapters.Table.Client.Writes.{delete-Deletes}
use baileys_session_manager.Adapters.Table.Pool.{attempt, sleep, clock, attempt-Serves, close_table}
use baileys_session_manager.Adapters.Postgres.{
  postgres_adapter, not_initialised, get, get_many, get_all_keys, set_many, delete_many, set,
  delete, delete_session, list_sessions, session_exists, init, close,
}

-- Over a PostgreSQL server that keeps to its documented behaviour and changes no row at the end of
-- a pool, also where it refuses a request or fails after it carried it out, at any time and with
-- or without a call of `init` before, the adapter meets what its callers rely on: `get`,
-- `getAllKeys`, `listSessions`, `sessionExists` and, on a table whose rows have different keys,
-- `getMany` return what the table holds and change no row, or fail; a `set` or `setMany` that
-- returns, after any number of attempts, has left the last value of each of its keys and changed
-- no other value of the session; a `delete` or `deleteMany` that returns has removed the rows of
-- its keys and no others of the session, and a `deleteSession` that returns all of them; these
-- five never touch the rows of another session, also if they fail; `init` and `close` change no
-- row; and from a table whose rows have different keys, none of the operations makes one that has
-- a key twice.
pub postgres_adapter-Laws :
    {S : Type 0} (server : Server S) (table : S → List Row)
    → Serves server.send server.sleep table
    → ((s : S) → table (server.end s).1 ≡ table s)
    → (options : RetryOptions)
    → Laws
        (postgres_adapter server options)
        (visible (λ p. table p.state))
        (IsKeyed (λ p. table p.state))
unfolding postgres_adapter get get_many get_all_keys set_many delete_many set delete delete_session
    list_sessions session_exists init close baileys_session_manager.Adapters.Table.Client.set
postgres_adapter-Laws server table serves ended options =
    adapter-Laws (attempt not_initialised server) (sleep server) (clock server) options
      (λ p. table p.state) (attempt-Serves not_initialised server table serves)
      (postgres_adapter server options)
      (record {
        has_get = refl;
        has_get_many = refl;
        has_get_all_keys = refl;
        has_set_many = refl;
        has_delete_many = refl;
        has_set = refl;
        has_delete_session = refl;
        has_list_sessions = refl;
        has_session_exists = refl;
        deletes =
            delete-Deletes (attempt not_initialised server) (sleep server) (clock server) options
              (λ p. table p.state) (attempt-Serves not_initialised server table serves);
        table-init = λ p.
            create_table-table (attempt not_initialised server) (sleep server) (clock server)
              options (λ p. table p.state) (attempt-Serves not_initialised server table serves)
              (record p { pool = true });
        table-close = λ p. close_table server table ended p;
      })
