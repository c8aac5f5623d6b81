-- ===== src/Adapters/Table.antt =====
-- The table `baileys_sessions`, as the SQL databases and MongoDB keep it: the list of its rows. A
-- statement is read as SQL: a `WHERE` is a filter in the order of the rows, and an
-- `INSERT … ON CONFLICT` puts a new row at the end.
pub mod Rows
pub mod Sessions
pub mod Partial
pub mod Requests
pub mod Pool
pub mod Client
use baileys_session_manager.Base.{
  ℕ, ◌+◌, Bool, true, false, not, ◌&&◌, Option, none, some, List, [], ◌∷◌, map, keep, if◌then◌else◌,
  Text, text, text_eq,
}
use baileys_session_manager.Base.Map.{Map, insert}
use baileys_session_manager.Adapter.{SessionRecord, Entry, member}

pub record Row : Type 0 where
  pub session_id : Text
  pub key : Text
  pub value : Text
  pub updated_at : ℕ
  pub version : ℕ

unfoldable pub is_row : Text → Text → Row → Bool
is_row session_id key r = text_eq r.session_id session_id && text_eq r.key key

-- `WHERE session_id = ? AND key = ?`
unfoldable pub select : Text → Text → List Row → Option Row
unfolding is_row
select session_id key [] = none
select session_id key (r ∷ rs) =
    if is_row session_id key r then some r else select session_id key rs

-- `WHERE session_id = ? AND key IN (…)`
unfoldable pub is_in : Text → List Text → Row → Bool
is_in session_id keys r = text_eq r.session_id session_id && member r.key keys

-- `INSERT … ON CONFLICT (session_id, key) DO UPDATE …`
unfoldable pub upsert : Text → Text → Text → ℕ → List Row → List Row
unfolding is_row
upsert session_id key value now [] =
    record { session_id = session_id; key = key; value = value; updated_at = now; version = 1 } ∷ []
upsert session_id key value now (r ∷ rs) =
    if is_row session_id key r
    then record r { value = value; updated_at = now; version = r.version + 1 } ∷ rs
    else r ∷ upsert session_id key value now rs

-- The transaction of `setMany`.
unfoldable pub upsert_all : Text → List Entry → ℕ → List Row → List Row
upsert_all session_id [] now rs = rs
upsert_all session_id (e ∷ es) now rs =
    upsert_all session_id es now (upsert session_id e.key e.value now rs)

-- `SELECT DISTINCT session_id`
unfoldable pub distinct_sessions : List Text → List Row → List Text
distinct_sessions seen [] = []
distinct_sessions seen (r ∷ rs) =
    if member r.session_id seen
    then distinct_sessions seen rs
    else r.session_id ∷ distinct_sessions (r.session_id ∷ seen) rs

unfoldable pub nonempty : List Row → Bool
nonempty [] = false
nonempty (r ∷ rs) = true

unfoldable pub to_record : Row → SessionRecord
to_record r = record {
  session_id = r.session_id;
  key = r.key;
  value = r.value;
  updated_at = r.updated_at;
  version = r.version;
}

unfoldable pub to_optional : Option Row → Option SessionRecord
unfolding to_record
to_optional none = none
to_optional (some r) = some (to_record r)

-- The loop of `getMany` over the rows.
unfoldable pub collect : List Row → Map SessionRecord → Map SessionRecord
unfolding to_record
collect [] found = found
collect (r ∷ rs) found = collect rs (insert r.key (to_record r) found)
