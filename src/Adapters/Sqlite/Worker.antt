-- ===== src/Adapters/Sqlite/Worker.antt =====
-- src/adapters/sqlite-worker.ts: the worker that runs the SQL statements. The table is the list of
-- its rows, and a statement is read as SQL: a `WHERE` is a filter in the order of the rows, and an
-- `INSERT … ON CONFLICT` puts a new row at the end.
use baileys_session_manager.Base.{
  ℕ, Bool, true, not, Option, none, some, List, [], ◌∷◌, map, keep, if◌then◌else◌, Text, text,
  text_eq,
}
use baileys_session_manager.Base.Exec.{ok, Exec, pure, throw, ◌>>◌}
use baileys_session_manager.Adapter.{Entry}
pub use baileys_session_manager.Adapters.Table.{Row}
unfoldable pub use baileys_session_manager.Adapters.Table.{
  is_row, select, is_in, upsert, upsert_all, distinct_sessions, nonempty,
}

-- The database file. `created` says that the table is there, and `faults` what the statements to
-- come throw: each statement takes one entry, and none is left when all go well.
pub record Store : Type 0 where
  pub created : Bool
  pub closed : Bool
  pub table : List Row
  pub now : ℕ
  pub faults : List (Option Text)

-- The fault of a statement.
unfoldable pub strike : List (Option Text) → Option Text × List (Option Text)
strike [] = (none, [])
strike (f ∷ fs) = (f, fs)

unfoldable pub fault_or : Option Text → Exec Store (Unit {0})
fault_or none = pure tt
fault_or (some e) = throw e

-- Any statement: it may fail, and does so on a database that is closed.
unfoldable pub execute : Exec Store (Unit {0})
unfolding strike fault_or
execute s =
    if s.closed
    then throw (text "The database connection is not open") s
    else fault_or (strike s.faults).0 (record s { faults = (strike s.faults).1 })

-- A statement on the table.
unfoldable pub prepare : Exec Store (Unit {0})
unfolding execute
prepare s = if s.created then execute s else throw (text "no such table: baileys_sessions") s

pub data Op : Type 0 where
  init list_sessions close : Op
  get set : Text → Text → Op
  get_many delete_many : Text → List Text → Op
  set_many : Text → List Entry → Op
  delete get_all_keys delete_session session_exists : Text → Op

-- The `result` of an answer.
pub data Reply : Type 0 where
  nothing : Reply
  row : Option Row → Reply
  rows : List Row → Reply
  names : List Text → Reply
  flag : Bool → Reply

-- A read of the table, and a write to it.
unfoldable pub reads : (List Row → Reply) → Exec Store Reply
reads f s = (ok (f s.table), s)

unfoldable pub writes : (Store → List Row) → Exec Store Reply
writes f s = (ok nothing, record s { table = f s })

-- The `switch` of the message handler. What it throws is the error of the answer.
unfoldable pub handle : Op → Exec Store Reply
unfolding reads writes nonempty
handle init = do execute; (λ s. (ok nothing, record s { created = true }))
handle (get session_id key) = do prepare; reads (λ t. row (select session_id key t))
handle (get_many session_id []) = pure (rows [])
handle (get_many session_id (k ∷ ks)) = do
  prepare
  reads (λ t. rows (keep (is_in session_id (k ∷ ks)) t))
handle (set_many session_id es) = do prepare; writes (λ s. upsert_all session_id es s.now s.table)
handle (delete_many session_id []) = pure nothing
handle (delete_many session_id (k ∷ ks)) = do
  prepare
  writes (λ s. keep (λ r. not (is_in session_id (k ∷ ks) r)) s.table)
handle (get_all_keys session_id) = do
  prepare
  reads (λ t. names (map (λ r. r.key) (keep (λ r. text_eq r.session_id session_id) t)))
handle (delete_session session_id) = do
  prepare
  writes (λ s. keep (λ r. not (text_eq r.session_id session_id)) s.table)
handle list_sessions = do prepare; reads (λ t. names (distinct_sessions [] t))
handle (session_exists session_id) = do
  prepare
  reads (λ t. flag (nonempty (keep (λ r. text_eq r.session_id session_id) t)))
handle close = λ s. (ok nothing, record s { closed = true })
handle (set session_id key) = throw (text "Unknown sqlite worker op: set")
handle (delete session_id) = throw (text "Unknown sqlite worker op: delete")
