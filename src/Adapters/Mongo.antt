-- ===== src/Adapters/Mongo.antt =====
-- src/adapters/mongodb-adapter.ts: every operation but `close` is a call of the collection, made
-- again if it fails. A `bulkWrite` that fails has done the operations before the one that failed.
pub mod Refinement
use baileys_session_manager.Base.{ℕ, Bool, true, false, Option, List, [], ◌∷◌, Text, text}
use baileys_session_manager.Base.Exec.{Result, ok, error, Exec, pure, ◌>>=◌, ◌>>◌}
use baileys_session_manager.Base.Map.{Map}
use baileys_session_manager.Adapter.{Adapter, SessionRecord, Entry}
use baileys_session_manager.Utils.Retry.{RetryOptions}
use baileys_session_manager.Adapters.Table.Requests.{Request, Answer, Server}
use baileys_session_manager.Adapters.Table.Client
use baileys_session_manager.Base.{if◌then◌else◌}
use baileys_session_manager.Base.Exec.{throw}

-- `client` and `collection` stand for the fields that are not `null`.
pub record Connected (S : Type 0) : Type 0 where
  pub client : Bool
  pub collection : Bool
  pub state : S

abbrev pub not_initialised : Text
not_initialised = text "MongoAdapter.init() must be called before it is used."

module _ {S : Type 0} where
  abbrev pub on_server : {A : Type 0} → Exec S A → Exec (Connected S) A
  on_server m c = let (r, s) = m c.state in (r, record c { state = s })

  abbrev pub sleep : Server S → ℕ → Connected S → Connected S
  sleep server ms c = record c { state = server.sleep ms c.state }

  abbrev pub clock : Server S → Connected S → ℕ
  clock server c = server.clock c.state

  -- A call through the getter `col`.
  unfoldable pub col : Server S → Request → Exec (Connected S) Answer
  col server q c = if c.collection then on_server (server.send q) c else throw not_initialised c

  abbrev pub set_client : Bool → Exec (Connected S) (Unit {0})
  set_client b c = (ok tt, record c { client = b })

  abbrev pub set_collection : Bool → Exec (Connected S) (Unit {0})
  set_collection b c = (ok tt, record c { collection = b })

  -- `connect` is that of the client.
  unfoldable pub init : Exec S (Unit {0}) → Server S → RetryOptions → Exec (Connected S) (Unit {0})
  init connect server options = do
    set_client true
    on_server connect
    set_collection true
    _ ← Client.request (col server) (sleep server) (clock server) options Request.create_table
    pure tt

  unfoldable pub close : Server S → Exec (Connected S) (Unit {0})
  close server c =
      if c.client
      then (on_server server.end >> (set_client false >> set_collection false)) c
      else (set_client false >> set_collection false) c

module _ {S : Type 0} (server : Server S) (options : RetryOptions) where
  unfoldable pub get : Text → Text → Exec (Connected S) (Option SessionRecord)
  get = Client.get (col server) (sleep server) (clock server) options

  unfoldable pub get_many : Text → List Text → Exec (Connected S) (Map SessionRecord)
  get_many = Client.get_many (col server) (sleep server) (clock server) options

  unfoldable pub set_many : Text → List Entry → Exec (Connected S) (Unit {0})
  set_many = Client.set_many (col server) (sleep server) (clock server) options

  unfoldable pub set : Text → Text → Text → Exec (Connected S) (Unit {0})
  unfolding set_many
  set session_id key value = set_many session_id (record { key = key; value = value } ∷ [])

  unfoldable pub delete_many : Text → List Text → Exec (Connected S) (Unit {0})
  delete_many = Client.delete_many (col server) (sleep server) (clock server) options

  -- `deleteOne`
  unfoldable pub delete : Text → Text → Exec (Connected S) (Unit {0})
  delete session_id key = do
    _ ←
        Client.request (col server) (sleep server) (clock server) options
          (Request.delete_one session_id key)
    pure tt

  unfoldable pub get_all_keys : Text → Exec (Connected S) (List Text)
  get_all_keys = Client.get_all_keys (col server) (sleep server) (clock server) options

  unfoldable pub delete_session : Text → Exec (Connected S) (Unit {0})
  delete_session = Client.delete_session (col server) (sleep server) (clock server) options

  unfoldable pub list_sessions : Exec (Connected S) (List Text)
  list_sessions = Client.list_sessions (col server) (sleep server) (clock server) options

  unfoldable pub session_exists : Text → Exec (Connected S) Bool
  session_exists = Client.session_exists (col server) (sleep server) (clock server) options

  unfoldable pub mongo_adapter : Exec S (Unit {0}) → Adapter (Connected S)
  mongo_adapter connect = record {
    init = init connect server options;
    get = get;
    get_many = get_many;
    set = set;
    set_many = set_many;
    delete = delete;
    delete_many = delete_many;
    get_all_keys = get_all_keys;
    delete_session = delete_session;
    list_sessions = list_sessions;
    session_exists = session_exists;
    close = close server;
  }
