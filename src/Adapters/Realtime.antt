-- ===== src/Adapters/Realtime.antt =====
-- src/adapters/firebase-realtime-adapter.ts: the rows of a session lie below one path, each under
-- its own. The reads of `getMany` are made one after the other, where the code makes them at the
-- same time.
pub mod Paths
pub mod Keeps
pub mod Reads
pub mod Writes
pub mod Rows
use baileys_session_manager.Base.{
  ℕ, ◌+◌, ◌/◌, ◌%◌, Bool, true, false, ◌||◌, ◌==◌, Option, none, some, List, [], ◌∷◌, ◌++◌, map,
  if◌then◌else◌, Text, text,
}
use baileys_session_manager.Base.Exec.{Result, ok, error, Exec, pure, ◌>>=◌}
use baileys_session_manager.Base.Map.{Map, lookup, insert}
use baileys_session_manager.Adapter.{Adapter, SessionRecord, Entry, is_some}
use baileys_session_manager.Utils.Retry.{RetryOptions}
use baileys_session_manager.Adapters.Base.{base_with_retry}
use baileys_session_manager.Adapters.Firebase
use baileys_session_manager.Adapters.Firebase.{Opened, get_each}

pub record StoredValue : Type 0 where
  pub value : Text
  pub updated_at : ℕ
  pub version : ℕ

-- What the code takes out of a value that is there: its fields, by the cast to `StoredValue`, and
-- its `Object.keys`.
pub record Node : Type 0 where
  pub as_stored : StoredValue
  pub object_keys : List Text

-- The client of the database; a snapshot that does not exist is `none`.
pub record Database (S : Type 0) : Type 0 where
  pub get_app : Exec S (Unit {0})
  pub once : Text → Exec S (Option Node)
  pub update : Map (Option StoredValue) → Exec S (Unit {0})
  pub remove : Text → Exec S (Unit {0})
  pub sleep : ℕ → S → S
  pub clock : S → ℕ

-- `/[.#$[\]/]/`
unfoldable pub is_disallowed : ℕ → Bool
is_disallowed u = u == b'.' || u == b'#' || u == b'$' || u == b'[' || u == b']' || u == b'/'

-- `~${char.charCodeAt(0)}~`: each of the codes has two digits.
unfoldable pub escape_char : ℕ → Text
escape_char u =
    if is_disallowed u then b'~' ∷ (b'0' + u / 10) ∷ (b'0' + u % 10) ∷ b'~' ∷ [] else u ∷ []

unfoldable pub escape_segment : Text → Text
unfolding escape_char
escape_segment [] = []
escape_segment (u ∷ s) = escape_char u ++ escape_segment s

abbrev pub root : Text
root = text "baileys_sessions"

-- `path(sessionId)`, and `path(sessionId, key)`, for which the empty key counts as none.
unfoldable pub session_path : Text → Text
session_path session_id = root ++ (text "/" ++ escape_segment session_id)

unfoldable pub path : Text → Text → Text
unfolding session_path
path session_id [] = session_path session_id
path session_id (u ∷ key) = session_path session_id ++ (text "/" ++ escape_segment (u ∷ key))

abbrev pub not_initialised : Text
not_initialised = text "FirebaseRealtimeAdapter.init() must be called before it is used."

abbrev pub version_of : Option SessionRecord → ℕ
version_of none = 0
version_of (some r) = r.version

unfoldable pub row_of : Text → Text → Option Node → Option SessionRecord
row_of session_id key none = none
row_of session_id key (some n) = some (record {
  session_id = session_id;
  key = key;
  value = n.as_stored.value;
  updated_at = n.as_stored.updated_at;
  version = n.as_stored.version;
})

-- The loops that fill `update`.
unfoldable pub writes :
    Text → ℕ → Map SessionRecord → List Entry → Map (Option StoredValue) → Map (Option StoredValue)
writes session_id now existing [] changes = changes
writes session_id now existing (e ∷ es) changes = writes session_id now existing es (
    insert (path session_id e.key)
      (some (record {
        value = e.value;
        updated_at = now;
        version = version_of (lookup e.key existing) + 1;
      }))
      changes)

unfoldable pub removals : Text → List Text → Map (Option StoredValue) → Map (Option StoredValue)
removals session_id [] changes = changes
removals session_id (k ∷ ks) changes =
    removals session_id ks (insert (path session_id k) none changes)

abbrev pub object_keys_of : Option Node → List Text
object_keys_of none = []
object_keys_of (some n) = n.object_keys

module _ {S : Type 0} (database : Database S) (options : RetryOptions) where
  unfoldable pub retried : {A : Type 0} → Exec S A → Exec (Opened S) A
  retried m = Firebase.retried not_initialised database.sleep options m

  unfoldable pub init : Exec (Opened S) (Unit {0})
  init = Firebase.init database.get_app

  unfoldable pub get : Text → Text → Exec (Opened S) (Option SessionRecord)
  unfolding retried
  get session_id key = do
    snapshot ← retried (database.once (path session_id key))
    pure (row_of session_id key snapshot)

  unfoldable pub get_many : Text → List Text → Exec (Opened S) (Map SessionRecord)
  unfolding get
  get_many session_id ks = get_each get session_id ks []

  -- The time is read first, then the versions.
  unfoldable pub set_many : Text → List Entry → Exec (Opened S) (Unit {0})
  unfolding get_many
  set_many session_id [] c = (ok tt, c)
  set_many session_id (e ∷ es) c =
      (do
        existing ← get_many session_id (map (λ e. e.key) (e ∷ es))
        retried (database.update (writes session_id (database.clock c.state) existing (e ∷ es) [])))
        c

  unfoldable pub set : Text → Text → Text → Exec (Opened S) (Unit {0})
  unfolding set_many
  set session_id key value = set_many session_id (record { key = key; value = value } ∷ [])

  unfoldable pub delete : Text → Text → Exec (Opened S) (Unit {0})
  delete session_id key = retried (database.remove (path session_id key))

  unfoldable pub delete_many : Text → List Text → Exec (Opened S) (Unit {0})
  delete_many session_id [] = pure tt
  delete_many session_id (k ∷ ks) = retried (database.update (removals session_id (k ∷ ks) []))

  unfoldable pub get_all_keys : Text → Exec (Opened S) (List Text)
  get_all_keys session_id = do
    snapshot ← retried (database.once (session_path session_id))
    pure (object_keys_of snapshot)

  unfoldable pub delete_session : Text → Exec (Opened S) (Unit {0})
  delete_session session_id = retried (database.remove (session_path session_id))

  unfoldable pub list_sessions : Exec (Opened S) (List Text)
  list_sessions = do snapshot ← retried (database.once root); pure (object_keys_of snapshot)

  unfoldable pub session_exists : Text → Exec (Opened S) Bool
  session_exists session_id = do
    snapshot ← retried (database.once (session_path session_id))
    pure (is_some snapshot)

  unfoldable pub close : Exec (Opened S) (Unit {0})
  close = pure tt

  unfoldable pub realtime_adapter : Adapter (Opened S)
  realtime_adapter = record {
    init = init;
    get = get;
    get_many = get_many;
    set = set;
    set_many = set_many;
    delete = delete;
    delete_many = delete_many;
    get_all_keys = get_all_keys;
    delete_session = delete_session;
    list_sessions = list_sessions;
    session_exists = session_exists;
    close = close;
  }
