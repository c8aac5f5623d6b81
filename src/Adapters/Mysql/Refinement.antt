-- ===== src/Adapters/Mysql/Refinement.antt =====
-- What callers rely on, for the adapter of MySQL.
use baileys_session_manager.Base.{◌≡◌, true, List, refl}
use baileys_session_manager.Adapter.{Laws}
use baileys_session_manager.Utils.Retry.{RetryOptions}
use baileys_session_manager.Adapters.Table.{Row}
use baileys_session_manager.Adapters.Table.Requests.{Server, Serves}
use baileys_session_manager.Adapters.Table.Client.Reads.{visible, IsKeyed, create_table-table}
use baileys_session_manager.Adapters.Table.Client.Refinement.{adapter-Laws}
use baileys_session_manager.Adapters.Table.Client.Writes.{delete-Deletes}
use baileys_session_manager.Adapters.Table.Pool.{attempt, sleep, clock, attempt-Serves, close_table}
use baileys_session_manager.Adapters.Mysql.{
  mysql_adapter, not_initialised, get, get_many, get_all_keys, set_many, delete_many, set, delete,
  delete_session, list_sessions, session_exists, init, close,
}

-- As for PostgreSQL, over a MySQL server whose columns tell all texts apart, as under a binary
-- collation, which is not the default.
pub mysql_adapter-Laws :
    {S : Type 0} (server : Server S) (table : S → List Row)
    → Serves server.send server.sleep table
    → ((s : S) → table (server.end s).1 ≡ table s)
    → (options : RetryOptions)
    → Laws
        (mysql_adapter server options)
        (visible (λ p. table p.state))
        (IsKeyed (λ p. table p.state))
unfolding mysql_adapter get get_many get_all_keys set_many delete_many set delete delete_session
    list_sessions session_exists init close baileys_session_manager.Adapters.Table.Client.set
mysql_adapter-Laws server table serves ended options =
    adapter-Laws (attempt not_initialised server) (sleep server) (clock server) options
      (λ p. table p.state) (attempt-Serves not_initialised server table serves)
      (mysql_adapter server options)
      (record {
        has_get = refl;
        has_get_many = refl;
        has_get_all_keys = refl;
        has_set_many = refl;
        has_delete_many = refl;
        has_set = refl;
        has_delete_session = refl;
        has_list_sessions = refl;
        has_session_exists = refl;
        deletes =
            delete-Deletes (attempt not_initialised server) (sleep server) (clock server) options
              (λ p. table p.state) (attempt-Serves not_initialised server table serves);
        table-init = λ p.
            create_table-table (attempt not_initialised server) (sleep server) (clock server)
              options (λ p. table p.state) (attempt-Serves not_initialised server table serves)
              (record p { pool = true });
        table-close = λ p. close_table server table ended p;
      })
