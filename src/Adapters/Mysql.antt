-- ===== src/Adapters/Mysql.antt =====
-- src/adapters/mysql-adapter.ts: every operation but `close` is a query of the pool, made again if
-- it fails. The server is taken to compare ids and keys byte by byte, as with a binary collation.
pub mod Refinement
use baileys_session_manager.Base.{ℕ, Bool, true, false, Option, List, [], ◌∷◌, Text, text}
use baileys_session_manager.Base.Exec.{Result, ok, error, Exec, pure, ◌>>=◌, ◌>>◌}
use baileys_session_manager.Base.Map.{Map}
use baileys_session_manager.Adapter.{Adapter, SessionRecord, Entry}
use baileys_session_manager.Utils.Retry.{RetryOptions}
use baileys_session_manager.Adapters.Table.Requests.{Request, Answer, Server}
use baileys_session_manager.Adapters.Table.Client
use baileys_session_manager.Adapters.Table.Pool
use baileys_session_manager.Adapters.Table.Pool.{Pooled, attempt, sleep, clock, on_server, set_pool}

abbrev pub not_initialised : Text
not_initialised = text "MysqlAdapter.init() must be called before it is used."

module _ {S : Type 0} (server : Server S) (options : RetryOptions) where
  -- `this.client.query(…)`
  abbrev pub query : Request → Exec (Pooled S) Answer
  query = attempt not_initialised server

  unfoldable pub init : Exec (Pooled S) (Unit {0})
  init = do
    set_pool true
    _ ← Client.request query (sleep server) (clock server) options Request.create_table
    pure tt

  unfoldable pub get : Text → Text → Exec (Pooled S) (Option SessionRecord)
  get = Client.get query (sleep server) (clock server) options

  unfoldable pub get_many : Text → List Text → Exec (Pooled S) (Map SessionRecord)
  get_many = Client.get_many query (sleep server) (clock server) options

  unfoldable pub set_many : Text → List Entry → Exec (Pooled S) (Unit {0})
  set_many = Client.set_many query (sleep server) (clock server) options

  unfoldable pub set : Text → Text → Text → Exec (Pooled S) (Unit {0})
  unfolding set_many
  set session_id key value = set_many session_id (record { key = key; value = value } ∷ [])

  unfoldable pub delete_many : Text → List Text → Exec (Pooled S) (Unit {0})
  delete_many = Client.delete_many query (sleep server) (clock server) options

  unfoldable pub delete : Text → Text → Exec (Pooled S) (Unit {0})
  unfolding delete_many
  delete session_id key = delete_many session_id (key ∷ [])

  unfoldable pub get_all_keys : Text → Exec (Pooled S) (List Text)
  get_all_keys = Client.get_all_keys query (sleep server) (clock server) options

  unfoldable pub delete_session : Text → Exec (Pooled S) (Unit {0})
  delete_session = Client.delete_session query (sleep server) (clock server) options

  unfoldable pub list_sessions : Exec (Pooled S) (List Text)
  list_sessions = Client.list_sessions query (sleep server) (clock server) options

  unfoldable pub session_exists : Text → Exec (Pooled S) Bool
  session_exists = Client.session_exists query (sleep server) (clock server) options

  unfoldable pub close : Exec (Pooled S) (Unit {0})
  close = Pool.close server

  unfoldable pub mysql_adapter : Adapter (Pooled S)
  mysql_adapter = record {
    init = init;
    get = get;
    get_many = get_many;
    set = set;
    set_many = set_many;
    delete = delete;
    delete_many = delete_many;
    get_all_keys = get_all_keys;
    delete_session = delete_session;
    list_sessions = list_sessions;
    session_exists = session_exists;
    close = close;
  }
