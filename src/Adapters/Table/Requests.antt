-- ===== src/Adapters/Table/Requests.antt =====
-- The requests that the adapters of PostgreSQL, MySQL, Cloudflare D1 and MongoDB send to their
-- servers, and what the servers are relied on to do with them.
use baileys_session_manager.Base.{
  ℕ, ◌≡◌, ◌⊎◌, Bool, true, false, not, List, [], ◌∷◌, ◌++◌, keep, Text, text_eq,
}
use baileys_session_manager.Base.Exec.{ok, Exec}
use baileys_session_manager.Adapter.{Entry, Failed, member}
use baileys_session_manager.Adapters.Table.{Row, is_row, is_in, upsert_all, distinct_sessions}

-- One constructor for each statement, or each call of a collection, with its parameters.
-- `upsert_rows` has the time that its rows get.
pub data Request : Type 0 where
  create_table : Request
  select_one : Text → Text → Request
  select_in : Text → List Text → Request
  upsert_rows : Text → List Entry → ℕ → Request
  delete_one : Text → Text → Request
  delete_in : Text → List Text → Request
  select_session : Text → Request
  select_any : Text → Request
  select_sessions : Request
  delete_session : Text → Request

-- The rows that come back, of which `SELECT key` and `SELECT 1` have only a part, or the session
-- ids.
pub data Answer : Type 0 where
  done : Answer
  rows : List Row → Answer
  names : List Text → Answer

-- `LIMIT 1`
abbrev pub first_only : List Row → List Row
first_only [] = []
first_only (r ∷ rs) = r ∷ []

abbrev pub answer : Request → List Row → Answer
answer (select_one session_id key) t = rows (first_only (keep (is_row session_id key) t))
answer (select_in session_id keys) t = rows (keep (is_in session_id keys) t)
answer (select_session session_id) t = rows (keep (λ r. text_eq r.session_id session_id) t)
answer (select_any session_id) t = rows (first_only (keep (λ r. text_eq r.session_id session_id) t))
answer select_sessions t = names (distinct_sessions [] t)
answer _ t = done

abbrev pub effect : Request → List Row → List Row
effect (upsert_rows session_id entries now) t = upsert_all session_id entries now t
effect (delete_one session_id key) t = keep (λ r. not (is_in session_id (key ∷ []) r)) t
effect (delete_in session_id keys) t = keep (λ r. not (is_in session_id keys r)) t
effect (delete_session session_id) t = keep (λ r. not (text_eq r.session_id session_id)) t
effect _ t = t

-- What a request that fails may leave: a transaction leaves nothing or, if only its answer is
-- lost, all that it does; a bulk write that is not one stops on its way.
abbrev pub Partly : Request → List Row → List Row → Type 0
Partly (upsert_rows session_id entries now) t u =
    (first rest : List Entry) × (entries ≡ first ++ rest) × (u ≡ upsert_all session_id first now t)
Partly (delete_one session_id key) t u =
    (some_keys : List Text) × ((k : Text) → member k some_keys ≡ true → member k (key ∷ []) ≡ true)
    × (u ≡ keep (λ r. not (is_in session_id some_keys r)) t)
Partly (delete_in session_id keys) t u =
    (some_keys : List Text) × ((k : Text) → member k some_keys ≡ true → member k keys ≡ true)
    × (u ≡ keep (λ r. not (is_in session_id some_keys r)) t)
Partly (delete_session session_id) t u =
    (test : Row → Bool) × ((r : Row) → text_eq r.session_id session_id ≡ false → test r ≡ true)
    × (u ≡ keep test t)
Partly _ t u = u ≡ t

-- A connection to a server: `send` makes a request, `sleep` is what passes while nothing is sent,
-- and `clock` is `Date.now()`.
pub record Server (S : Type 0) : Type 0 where
  pub send : Request → Exec S Answer
  pub end : Exec S (Unit {0})
  pub sleep : ℕ → S → S
  pub clock : S → ℕ

-- The documented behaviour of a server, of which no one else changes the sessions in the meantime:
-- a request is answered from the rows and takes its effect, or fails, at any time, and may have
-- taken it in part. An adapter's attempt at a request has the same behaviour.
pub record Serves {S : Type 0} (send : Request → Exec S Answer) (sleep : ℕ → S → S)
    (table : S → List Row) : Type 0 where
  pub send_lem :
      (q : Request) (s : S)
      → (((send q s).0 ≡ ok (answer q (table s))) × (table (send q s).1 ≡ effect q (table s)))
        ⊎ (Failed (send q s) × Partly q (table s) (table (send q s).1))
  pub table-sleep : (ms : ℕ) (s : S) → table (sleep ms s) ≡ table s
