-- ===== src/Adapters/Firestore.antt =====
-- src/adapters/firestore-adapter.ts: a document for each row, whose id is made of the session id
-- and the key.
pub mod Keeps
pub mod Ids
pub mod Rows
pub mod Deletion
use baileys_session_manager.Base.{
  ℕ, Bool, true, false, not, ◌==◌, Option, none, some, List, [], ◌∷◌, ◌++◌, map, if◌then◌else◌,
  Text, text,
}
use baileys_session_manager.Base.Exec.{Result, ok, error, Exec, pure, ◌>>=◌, ◌>>◌}
use baileys_session_manager.Base.Map.{Map, keys}
use baileys_session_manager.Adapter.{Adapter, SessionRecord, Entry, member}
use baileys_session_manager.Utils.Retry.{RetryOptions}
use baileys_session_manager.Adapters.Base.{base_with_retry}
use baileys_session_manager.Adapters.Firebase
use baileys_session_manager.Adapters.Firebase.{Opened, client, on_app, slept, get_each}

pub record FirestoreDoc : Type 0 where
  pub session_id : Text
  pub key : Text
  pub value : Text
  pub updated_at : ℕ
  pub version : ℕ

-- A call of a `WriteBatch`, with the id of the document.
pub data Write : Type 0 where
  set_doc : Text → FirestoreDoc → Write
  delete_doc : Text → Write

-- The client of the database. The documents of a query come with their ids.
pub record Firestore (S : Type 0) : Type 0 where
  pub get_app : Exec S (Unit {0})
  pub get_doc : Text → Exec S (Option FirestoreDoc)
  pub where_session : Text → Exec S (Map FirestoreDoc)
  pub get_all : Exec S (Map FirestoreDoc)
  pub delete_one : Text → Exec S (Unit {0})
  pub commit : List Write → Exec S (Unit {0})
  pub sleep : ℕ → S → S
  pub clock : S → ℕ

unfoldable pub to_record : FirestoreDoc → SessionRecord
to_record doc = record {
  session_id = doc.session_id;
  key = doc.key;
  value = doc.value;
  updated_at = doc.updated_at;
  version = doc.version;
}

-- `….replace(/\//g, '_')`
unfoldable pub replace_slashes : Text → Text
replace_slashes [] = []
replace_slashes (u ∷ s) = (if u == b'/' then b'_' else u) ∷ replace_slashes s

unfoldable pub doc_id : Text → Text → Text
doc_id session_id key = replace_slashes session_id ++ (text "__" ++ replace_slashes key)

abbrev pub not_initialised : Text
not_initialised = text "FirestoreAdapter.init() must be called before it is used."

-- `if (!snap.exists) return null`
unfoldable pub record_of : Option FirestoreDoc → Option SessionRecord
record_of none = none
record_of (some doc) = some (to_record doc)

-- The calls of `batch.set` of `setMany`, and those of `batch.delete`.
unfoldable pub sets : Text → ℕ → List Entry → List Write
sets session_id now [] = []
sets session_id now (e ∷ es) =
    set_doc (doc_id session_id e.key) (record {
      session_id = session_id;
      key = e.key;
      value = e.value;
      updated_at = now;
      version = 1;
    })
    ∷ sets session_id now es

unfoldable pub deletes : List Text → List Write
deletes [] = []
deletes (i ∷ ids) = delete_doc i ∷ deletes ids

-- The `Set` of `listSessions`, in the order of insertion.
unfoldable pub session_ids : List Text → Map FirestoreDoc → List Text
session_ids seen [] = []
session_ids seen ((i, doc) ∷ docs) =
    if member doc.session_id seen
    then session_ids seen docs
    else doc.session_id ∷ session_ids (doc.session_id ∷ seen) docs

abbrev pub keys_in : Map FirestoreDoc → List Text
keys_in [] = []
keys_in ((i, doc) ∷ docs) = doc.key ∷ keys_in docs

abbrev pub is_empty : Map FirestoreDoc → Bool
is_empty [] = true
is_empty (d ∷ docs) = false

module _ {S : Type 0} (firestore : Firestore S) (options : RetryOptions) where
  -- `this.withRetry(() => this.collection…)`
  unfoldable pub retried : {A : Type 0} → Exec S A → Exec (Opened S) A
  retried m = Firebase.retried not_initialised firestore.sleep options m

  -- `const batch = this.client.batch()`, which throws before the first attempt if there is no
  -- client, and the attempts of `batch.commit()`.
  unfoldable pub committed : List Write → Exec (Opened S) (Unit {0})
  committed writes =
      client not_initialised (pure tt)
      >> base_with_retry (slept firestore.sleep) options (on_app (firestore.commit writes))

  unfoldable pub init : Exec (Opened S) (Unit {0})
  init = Firebase.init firestore.get_app

  unfoldable pub get : Text → Text → Exec (Opened S) (Option SessionRecord)
  unfolding retried
  get session_id key = do
    doc ← retried (firestore.get_doc (doc_id session_id key))
    pure (record_of doc)

  unfoldable pub get_many : Text → List Text → Exec (Opened S) (Map SessionRecord)
  unfolding get
  get_many session_id [] = pure []
  get_many session_id (k ∷ ks) = get_each get session_id (k ∷ ks) []

  unfoldable pub set_many : Text → List Entry → Exec (Opened S) (Unit {0})
  unfolding committed
  set_many session_id [] c = (ok tt, c)
  set_many session_id (e ∷ es) c = committed (sets session_id (firestore.clock c.state) (e ∷ es)) c

  unfoldable pub set : Text → Text → Text → Exec (Opened S) (Unit {0})
  unfolding set_many
  set session_id key value = set_many session_id (record { key = key; value = value } ∷ [])

  unfoldable pub delete : Text → Text → Exec (Opened S) (Unit {0})
  unfolding retried
  delete session_id key = retried (firestore.delete_one (doc_id session_id key))

  unfoldable pub delete_many : Text → List Text → Exec (Opened S) (Unit {0})
  unfolding committed
  delete_many session_id [] = pure tt
  delete_many session_id (k ∷ ks) = committed (deletes (map (doc_id session_id) (k ∷ ks)))

  unfoldable pub get_all_keys : Text → Exec (Opened S) (List Text)
  unfolding retried
  get_all_keys session_id = do
    docs ← retried (firestore.where_session session_id)
    pure (keys_in docs)

  unfoldable pub delete_found : Map FirestoreDoc → Exec (Opened S) (Unit {0})
  unfolding committed
  delete_found docs = if is_empty docs then pure tt else committed (deletes (keys docs))

  unfoldable pub delete_session : Text → Exec (Opened S) (Unit {0})
  unfolding retried delete_found
  delete_session session_id = do
    docs ← retried (firestore.where_session session_id)
    delete_found docs

  unfoldable pub list_sessions : Exec (Opened S) (List Text)
  unfolding retried
  list_sessions = do docs ← retried firestore.get_all; pure (session_ids [] docs)

  unfoldable pub session_exists : Text → Exec (Opened S) Bool
  unfolding retried
  session_exists session_id = do
    docs ← retried (firestore.where_session session_id)
    pure (not (is_empty docs))

  unfoldable pub close : Exec (Opened S) (Unit {0})
  close = pure tt

  unfoldable pub firestore_adapter : Adapter (Opened S)
  firestore_adapter = record {
    init = init;
    get = get;
    get_many = get_many;
    set = set;
    set_many = set_many;
    delete = delete;
    delete_many = delete_many;
    get_all_keys = get_all_keys;
    delete_session = delete_session;
    list_sessions = list_sessions;
    session_exists = session_exists;
    close = close;
  }
