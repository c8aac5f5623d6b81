-- ===== src/Adapters/D1/Refinement.antt =====
-- What callers rely on, for the adapter of Cloudflare D1.
use baileys_session_manager.Base.{List, refl}
use baileys_session_manager.Adapter.{Laws}
use baileys_session_manager.Utils.Retry.{RetryOptions}
use baileys_session_manager.Adapters.Table.{Row}
use baileys_session_manager.Adapters.Table.Requests.{Server, Serves}
use baileys_session_manager.Adapters.Table.Client.Reads.{visible, IsKeyed, create_table-table}
use baileys_session_manager.Adapters.Table.Client.Refinement.{adapter-Laws}
use baileys_session_manager.Adapters.Table.Client.Writes.{delete-Deletes}
use baileys_session_manager.Adapters.D1.{
  d1_adapter, get, get_many, get_all_keys, set_many, delete_many, set, delete, delete_session,
  list_sessions, session_exists, init, close,
}

-- Over a D1 binding that keeps to its documented behaviour, also where it fails at any time,
-- before or after the one transaction that a batch is, the adapter meets what its callers rely on:
-- `get`, `getAllKeys`, `listSessions`, `sessionExists` and, on a table whose rows have different
-- keys, `getMany` return what the table holds and change no row, or fail; a `set` or `setMany`
-- that returns, after any number of attempts, has left the last value of each of its keys and
-- changed no other value of the session; a `delete` or `deleteMany` that returns has removed the
-- rows of its keys and no others of the session, and a `deleteSession` that returns all of them;
-- these five never touch the rows of another session, also if they fail; `init` and `close` change
-- no row; and from a table whose rows have different keys, none of the operations makes one that
-- has a key twice.
pub d1_adapter-Laws :
    {S : Type 0} (server : Server S) (table : S → List Row)
    → Serves server.send server.sleep table
    → (options : RetryOptions) → Laws (d1_adapter server options) (visible table) (IsKeyed table)
unfolding d1_adapter get get_many get_all_keys set_many delete_many set delete delete_session
    list_sessions session_exists init close baileys_session_manager.Adapters.Table.Client.set
d1_adapter-Laws server table serves options =
    adapter-Laws server.send server.sleep server.clock options table serves
      (d1_adapter server options)
      (record {
        has_get = refl;
        has_get_many = refl;
        has_get_all_keys = refl;
        has_set_many = refl;
        has_delete_many = refl;
        has_set = refl;
        has_delete_session = refl;
        has_list_sessions = refl;
        has_session_exists = refl;
        deletes = delete-Deletes server.send server.sleep server.clock options table serves;
        table-init =
            λ s. create_table-table server.send server.sleep server.clock options table serves s;
        table-close = λ s. refl;
      })
