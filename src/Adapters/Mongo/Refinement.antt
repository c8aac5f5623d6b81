-- ===== src/Adapters/Mongo/Refinement.antt =====
-- What callers rely on, for the adapter of MongoDB.
use baileys_session_manager.Base.{◌≡◌, ◌∙◌, true, false, List, refl, Bool-cases, inl, inr}
use baileys_session_manager.Base.Exec.{Result, ok, error, continue, pure, Exec, ◌>>=◌, ◌>>◌}
use baileys_session_manager.Adapters.Table.Client
use baileys_session_manager.Adapter.{Laws}
use baileys_session_manager.Utils.Retry.{RetryOptions}
use baileys_session_manager.Adapters.Table.{Row}
use baileys_session_manager.Adapters.Table.Requests.{Server, Serves, Request}
use baileys_session_manager.Adapters.Table.Client.Reads.{visible, IsKeyed, create_table-table}
use baileys_session_manager.Adapters.Table.Client.Refinement.{adapter-Laws}
use baileys_session_manager.Adapters.Table.Client.Writes.{delete_one-Deletes}
use baileys_session_manager.Adapters.Table.Pool.{Partly-refl}
use baileys_session_manager.Adapters.Mongo.{
  mongo_adapter, col, sleep, clock, not_initialised, get, get_many, get_all_keys, set_many,
  delete_many, set, delete, delete_session, list_sessions, session_exists, init, close, Connected,
  set_client, set_collection,
}

col-Serves :
    {S : Type 0} (server : Server S) (table : S → List Row)
    → Serves server.send server.sleep table
    → Serves (col server) (sleep server) (λ c. table c.state)
unfolding col
col-Serves server table serves = record {
  send_lem = λ q c. elim (Bool-cases c.collection) [
    | inl there ↦ rw there (serves.send_lem q c.state)
    | inr missing ↦ rw missing (inr ((not_initialised, refl), Partly-refl q (table c.state)))
  ];
  table-sleep = λ ms c. serves.table-sleep ms c.state;
}

init_table :
    {S : Type 0} (server : Server S) (table : S → List Row)
    → Serves server.send server.sleep table
    → (options : RetryOptions) (connect : Exec S (Unit {0}))
    → ((s : S) → table (connect s).1 ≡ table s)
    → (c : Connected S) → table (init connect server options c).1.state ≡ table c.state
unfolding init
init_table {S = S} server table serves options connect connected c =
    go (connect c.state) (connected c.state)
  where
    rest : Exec (Connected S) (Unit {0})
    rest = do
      set_collection true
      _ ← Client.request (col server) (sleep server) (clock server) options Request.create_table
      pure tt

    go :
        (out : Result (Unit {0}) × S)
        → table out.1 ≡ table c.state
        → table
            (continue {0, 0, 0}
              (λ (_ : Unit {0}). rest)
              (out.0, record c { client = true; state = out.1 })).1.state
          ≡ table c.state
    go (ok u, s) same =
        create_table-table (col server) (sleep server) (clock server) options (λ c. table c.state)
          (col-Serves server table serves)
          (record c { client = true; state = s; collection = true })
        ∙ same
    go (error x, s) same = same

close_table :
    {S : Type 0} (server : Server S) (table : S → List Row)
    → ((s : S) → table (server.end s).1 ≡ table s)
    → (c : Connected S) → table (close server c).1.state ≡ table c.state
unfolding close
close_table {S = S} server table ended c = elim (Bool-cases c.client) [
  | inl there ↦ rw there (go (server.end c.state) (ended c.state))
  | inr missing ↦ rw missing refl
]
  where
    go :
        (out : Result (Unit {0}) × S)
        → table out.1 ≡ table c.state
        → table
            (continue {0, 0, 0}
              (λ (_ : Unit {0}). set_client false >> set_collection false)
              (out.0, record c { client = true; state = out.1 })).1.state
          ≡ table c.state
    go (ok u, s) same = same
    go (error x, s) same = same

-- Over a MongoDB collection that keeps to its documented behaviour, also where a bulk write or a
-- deletion fails at any time after a part of it, and a client that changes no row when it connects
-- or closes, the adapter meets what its callers rely on: `get`, `getAllKeys`, `listSessions`,
-- `sessionExists` and, on a table whose rows have different keys, `getMany` return what the table
-- holds and change no row, or fail; a `set` or `setMany` that returns, after any number of
-- attempts, has left the last value of each of its keys and changed no other value of the session;
-- a `delete` or `deleteMany` that returns has removed the rows of its keys and no others of the
-- session, and a `deleteSession` that returns all of them; these five never touch the rows of
-- another session, also if they fail; `init` and `close` change no row; and from a table whose
-- rows have different keys, none of the operations makes one that has a key twice.
pub mongo_adapter-Laws :
    {S : Type 0} (server : Server S) (table : S → List Row)
    → Serves server.send server.sleep table
    → ((s : S) → table (server.end s).1 ≡ table s)
    → (options : RetryOptions) (connect : Exec S (Unit {0}))
    → ((s : S) → table (connect s).1 ≡ table s)
    → Laws
        (mongo_adapter server options connect)
        (visible (λ c. table c.state))
        (IsKeyed (λ c. table c.state))
unfolding mongo_adapter get get_many get_all_keys set_many delete_many set delete delete_session
    list_sessions session_exists baileys_session_manager.Adapters.Table.Client.set
mongo_adapter-Laws server table serves ended options connect connected =
    adapter-Laws (col server) (sleep server) (clock server) options (λ c. table c.state)
      (col-Serves server table serves) (mongo_adapter server options connect)
      (record {
        has_get = refl;
        has_get_many = refl;
        has_get_all_keys = refl;
        has_set_many = refl;
        has_delete_many = refl;
        has_set = refl;
        has_delete_session = refl;
        has_list_sessions = refl;
        has_session_exists = refl;
        deletes =
            delete_one-Deletes (col server) (sleep server) (clock server) options
              (λ c. table c.state) (col-Serves server table serves);
        table-init = init_table server table serves options connect connected;
        table-close = close_table server table ended;
      })
