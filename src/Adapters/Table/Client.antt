-- ===== src/Adapters/Table/Client.antt =====
-- What the adapters of PostgreSQL, MySQL, Cloudflare D1 and MongoDB have in common: each operation
-- is a request that is made again if it fails.
pub mod Steps
pub mod Reads
pub mod Writes
pub mod Sessions
pub mod Refinement
use baileys_session_manager.Base.{
  ℕ, Bool, true, false, Option, none, some, List, [], ◌∷◌, map, Text,
}
use baileys_session_manager.Base.Exec.{Result, ok, error, Exec, pure, ◌>>=◌, ◌>>◌}
use baileys_session_manager.Base.Map.{Map}
use baileys_session_manager.Adapter.{Adapter, SessionRecord, Entry}
use baileys_session_manager.Utils.Retry.{RetryOptions}
use baileys_session_manager.Adapters.Base.{base_with_retry}
use baileys_session_manager.Adapters.Table.{Row, to_record, to_optional, collect}
use baileys_session_manager.Adapters.Table.Requests.{Request, Answer, done, rows, names}

-- The rows of an answer, its ids, and its first row, if there is one.
unfoldable pub rows_of : Answer → List Row
rows_of (rows rs) = rs
rows_of _ = []

unfoldable pub names_of : Answer → List Text
names_of (names ns) = ns
names_of _ = []

unfoldable pub first_of : List Row → Option Row
first_of [] = none
first_of (r ∷ rs) = some r

unfoldable pub is_nonempty : List Row → Bool
is_nonempty [] = false
is_nonempty (r ∷ rs) = true

-- `attempt` makes a request once, on the state of the adapter and its server.
module _ {C : Type 0} (attempt : Request → Exec C Answer) (sleep : ℕ → C → C) (clock : C → ℕ)
    (options : RetryOptions) where
  unfoldable pub request : Request → Exec C Answer
  request q = base_with_retry sleep options (attempt q)

  unfoldable pub get : Text → Text → Exec C (Option SessionRecord)
  unfolding request
  get session_id key = do
    a ← request (Request.select_one session_id key)
    pure (to_optional (first_of (rows_of a)))

  unfoldable pub get_many : Text → List Text → Exec C (Map SessionRecord)
  unfolding request
  get_many session_id [] = pure []
  get_many session_id (k ∷ ks) = do
    a ← request (Request.select_in session_id (k ∷ ks))
    pure (collect (rows_of a) [])

  -- The time is read once, before the first attempt.
  unfoldable pub set_many : Text → List Entry → Exec C (Unit {0})
  unfolding request
  set_many session_id [] c = (ok tt, c)
  set_many session_id (e ∷ es) c =
      (do _ ← request (Request.upsert_rows session_id (e ∷ es) (clock c)); pure tt) c

  unfoldable pub set : Text → Text → Text → Exec C (Unit {0})
  unfolding set_many
  set session_id key value = set_many session_id (record { key = key; value = value } ∷ [])

  unfoldable pub delete_many : Text → List Text → Exec C (Unit {0})
  unfolding request
  delete_many session_id [] = pure tt
  delete_many session_id (k ∷ ks) = do _ ← request (Request.delete_in session_id (k ∷ ks)); pure tt

  unfoldable pub get_all_keys : Text → Exec C (List Text)
  unfolding request
  get_all_keys session_id = do
    a ← request (Request.select_session session_id)
    pure (map (λ r. r.key) (rows_of a))

  unfoldable pub delete_session : Text → Exec C (Unit {0})
  unfolding request
  delete_session session_id = do _ ← request (Request.delete_session session_id); pure tt

  unfoldable pub list_sessions : Exec C (List Text)
  unfolding request
  list_sessions = do a ← request Request.select_sessions; pure (names_of a)

  unfoldable pub session_exists : Text → Exec C Bool
  unfolding request
  session_exists session_id = do
    a ← request (Request.select_any session_id)
    pure (is_nonempty (rows_of a))
