-- ===== src/Adapters/D1.antt =====
-- src/adapters/cloudflare-d1-adapter.ts: every operation but `close` goes to the binding of the
-- database, and is made again if it fails. The statements of a `batch` are one transaction.
pub mod Refinement
use baileys_session_manager.Base.{ℕ, Bool, true, false, Option, List, [], ◌∷◌, Text, text}
use baileys_session_manager.Base.Exec.{Result, ok, error, Exec, pure, ◌>>=◌, ◌>>◌}
use baileys_session_manager.Base.Map.{Map}
use baileys_session_manager.Adapter.{Adapter, SessionRecord, Entry}
use baileys_session_manager.Utils.Retry.{RetryOptions}
use baileys_session_manager.Adapters.Table.Requests.{Request, Answer, Server}
use baileys_session_manager.Adapters.Table.Client

module _ {S : Type 0} (server : Server S) (options : RetryOptions) where
  unfoldable pub init : Exec S (Unit {0})
  init = do
    _ ← Client.request server.send server.sleep server.clock options Request.create_table
    pure tt

  unfoldable pub get : Text → Text → Exec S (Option SessionRecord)
  get = Client.get server.send server.sleep server.clock options

  unfoldable pub get_many : Text → List Text → Exec S (Map SessionRecord)
  get_many = Client.get_many server.send server.sleep server.clock options

  unfoldable pub set_many : Text → List Entry → Exec S (Unit {0})
  set_many = Client.set_many server.send server.sleep server.clock options

  unfoldable pub set : Text → Text → Text → Exec S (Unit {0})
  unfolding set_many
  set session_id key value = set_many session_id (record { key = key; value = value } ∷ [])

  unfoldable pub delete_many : Text → List Text → Exec S (Unit {0})
  delete_many = Client.delete_many server.send server.sleep server.clock options

  unfoldable pub delete : Text → Text → Exec S (Unit {0})
  unfolding delete_many
  delete session_id key = delete_many session_id (key ∷ [])

  unfoldable pub get_all_keys : Text → Exec S (List Text)
  get_all_keys = Client.get_all_keys server.send server.sleep server.clock options

  unfoldable pub delete_session : Text → Exec S (Unit {0})
  delete_session = Client.delete_session server.send server.sleep server.clock options

  unfoldable pub list_sessions : Exec S (List Text)
  list_sessions = Client.list_sessions server.send server.sleep server.clock options

  unfoldable pub session_exists : Text → Exec S Bool
  session_exists = Client.session_exists server.send server.sleep server.clock options

  unfoldable pub close : Exec S (Unit {0})
  close = pure tt

  unfoldable pub d1_adapter : Adapter S
  d1_adapter = record {
    init = init;
    get = get;
    get_many = get_many;
    set = set;
    set_many = set_many;
    delete = delete;
    delete_many = delete_many;
    get_all_keys = get_all_keys;
    delete_session = delete_session;
    list_sessions = list_sessions;
    session_exists = session_exists;
    close = close;
  }
