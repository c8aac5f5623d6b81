-- ===== src/Adapters/Sqlite.antt =====
-- src/adapters/sqlite-adapter.ts: each operation is a call of the worker, made
-- again if it fails.
pub mod Worker
pub mod Calls
pub mod Answers
pub mod Sessions
pub mod Refinement
pub mod Healthy
pub mod Messages
use baileys_session_manager.Base.{
  ℕ, ◌+◌, Bool, true, false, Option, none, some, List, [], ◌∷◌, Text,
}
use baileys_session_manager.Base.Exec.{Result, ok, error, Exec, pure, ◌>>=◌, ◌>>◌}
use baileys_session_manager.Base.Map.{Map, insert}
use baileys_session_manager.Adapter.{Adapter, SessionRecord, Entry}
use baileys_session_manager.Utils.Retry.{RetryOptions, Ending, with_retry}
unfoldable pub use baileys_session_manager.Adapters.Table.{to_record, to_optional, collect}
use baileys_session_manager.Adapters.Base.{base_with_retry}
use Worker.{Store, Row, Op, Reply, nothing, row, rows, names, flag, handle}

-- What passes while a call waits for its next attempt: the time.
unfoldable pub sleep : ℕ → Store → Store
sleep ms s = record s { now = s.now + ms }

-- `call`: the worker answers each request.
unfoldable pub call : RetryOptions → Op → Exec Store Reply
call options op = base_with_retry sleep options (handle op)

-- `result as T`
unfoldable pub as_row : Reply → Option Row
as_row (row r) = r
as_row _ = none

unfoldable pub as_rows : Reply → List Row
as_rows (rows rs) = rs
as_rows _ = []

unfoldable pub as_names : Reply → List Text
as_names (names ks) = ks
as_names _ = []

unfoldable pub as_flag : Reply → Bool
as_flag (flag b) = b
as_flag _ = false

module _ (options : RetryOptions) where
  unfoldable pub init : Exec Store (Unit {0})
  unfolding call
  init = do _ ← call options Op.init; pure tt

  unfoldable pub get : Text → Text → Exec Store (Option SessionRecord)
  unfolding call as_row to_optional
  get session_id key = do
    reply ← call options (Op.get session_id key)
    pure (to_optional (as_row reply))

  unfoldable pub get_many : Text → List Text → Exec Store (Map SessionRecord)
  unfolding call as_rows
  get_many session_id keys = do
    reply ← call options (Op.get_many session_id keys)
    pure (collect (as_rows reply) [])

  unfoldable pub set_many : Text → List Entry → Exec Store (Unit {0})
  unfolding call
  set_many session_id [] = pure tt
  set_many session_id (e ∷ es) = do _ ← call options (Op.set_many session_id (e ∷ es)); pure tt

  unfoldable pub set : Text → Text → Text → Exec Store (Unit {0})
  unfolding set_many
  set session_id key value = set_many session_id (record { key = key; value = value } ∷ [])

  unfoldable pub delete_many : Text → List Text → Exec Store (Unit {0})
  unfolding call
  delete_many session_id [] = pure tt
  delete_many session_id (k ∷ ks) = do
    _ ← call options (Op.delete_many session_id (k ∷ ks))
    pure tt

  unfoldable pub delete : Text → Text → Exec Store (Unit {0})
  unfolding delete_many
  delete session_id key = delete_many session_id (key ∷ [])

  unfoldable pub get_all_keys : Text → Exec Store (List Text)
  unfolding call as_names
  get_all_keys session_id = do
    reply ← call options (Op.get_all_keys session_id)
    pure (as_names reply)

  unfoldable pub delete_session : Text → Exec Store (Unit {0})
  unfolding call
  delete_session session_id = do _ ← call options (Op.delete_session session_id); pure tt

  unfoldable pub list_sessions : Exec Store (List Text)
  unfolding call as_names
  list_sessions = do reply ← call options Op.list_sessions; pure (as_names reply)

  unfoldable pub session_exists : Text → Exec Store Bool
  unfolding call as_flag
  session_exists session_id = do
    reply ← call options (Op.session_exists session_id)
    pure (as_flag reply)

  -- `await this.call('close').catch(() => {})`, without retries.
  unfoldable pub close : Exec Store (Unit {0})
  close s = (ok tt, (handle Op.close s).1)

  unfoldable pub sqlite_adapter : Adapter Store
  sqlite_adapter = record {
    init = init;
    get = get;
    get_many = get_many;
    set = set;
    set_many = set_many;
    delete = delete;
    delete_many = delete_many;
    get_all_keys = get_all_keys;
    delete_session = delete_session;
    list_sessions = list_sessions;
    session_exists = session_exists;
    close = close;
  }
