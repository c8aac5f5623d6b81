-- ===== src/Tests/Realtime.antt =====
-- The adapter of the Realtime Database at concrete inputs.
mod Healthy
use Healthy.{Tree, database, stored, database-Keeps}
use baileys_session_manager.Base.{
  ℕ, suc, ◌+◌, ◌≡◌, ◌≢◌, refl, subst, ap, sym, ◌∙◌, inl, inr, Bool, true, false, Bool-cases, ◌==◌,
  ltb, Option, none, some, List, [], ◌∷◌, ◌++◌, All, Text, text, text_eq, text_eq_iff,
  if◌then◌else◌, arith,
}
use baileys_session_manager.Base.Exec.{ok}
use baileys_session_manager.Base.Map.{Map, lookup, insert, remove, lookup-insert, lookup-remove}
use baileys_session_manager.Adapter.{Entry, overwritten, member}
use baileys_session_manager.Utils.Retry.{RetryOptions, with_retry}
use baileys_session_manager.Adapters.Firebase.{Opened, client, retried, get_each, add}
use baileys_session_manager.Adapters.Base.{base_with_retry}
use baileys_session_manager.Adapters.Firebase.Steps.{held}
use baileys_session_manager.Adapters.Realtime.{
  StoredValue, Node, Database, root, path, session_path, writes, row_of, is_disallowed,
  object_keys_of, set_many, get_all_keys, escape_segment,
}
use baileys_session_manager.Adapters.Realtime.Paths.{IsAllowed}
use baileys_session_manager.Adapters.Realtime.Keeps.{Keeps, IsRow, changed, present, stored_of}
use baileys_session_manager.Adapters.Realtime.Writes.{IsPlain, rewritten}
use baileys_session_manager.Adapters.Realtime.Rows.{set_many_rows, get_all_keys_names}
use mathlib.Core.List.{append_assoc}

abbrev options : RetryOptions
options = record { retries = some 2; min_delay_ms = none; max_delay_ms = some 300 }

-- The key has a full stop.
abbrev entry : Entry
entry = record { key = text "lid-1.0"; value = text "v" }

abbrev value : StoredValue
value = record { value = text "v"; updated_at = 7; version = 1 }

abbrev start : Opened Tree
start = record { db = true; state = [] }

abbrev after_set : Opened Tree
after_set = record { db = true; state = (text "baileys_sessions/a/lid-1~46~0", value) ∷ [] }

sets : set_many database options (text "a") (entry ∷ []) start ≡ (ok tt, after_set)
unfolding set_many get_each retried base_with_retry with_retry client writes insert path lookup
    escape_segment add is_disallowed row_of
sets = refl

lists :
    get_all_keys database options (text "a") after_set ≡ (ok (text "lid-1~46~0" ∷ []), after_set)
unfolding get_all_keys baileys_session_manager.Adapters.Realtime.retried retried base_with_retry
    with_retry client lookup text_eq session_path escape_segment is_disallowed
lists = refl

a-IsPlain : IsPlain (text "a")
a-IsPlain = ((omega arith, tt), λ e. cc)

entry-IsPlain : IsPlain (text "lid-1.0")
entry-IsPlain = (
  (
    omega arith,
    (omega arith, (omega arith, (omega arith, (omega arith, (omega arith, (omega arith, tt)))))),
  ),
  λ e. cc,
)

set_many_rows_example :
    ((key : Text)
      → IsPlain key
      → held stored after_set (path (text "a") key)
        ≡ rewritten 7 (overwritten (entry ∷ []) key none) none 0)
    × ((t key : Text)
        → IsPlain t
        → text "a" ≢ t
        → IsPlain key
        → held stored after_set (path t key) ≡ none)
unfolding lookup
set_many_rows_example =
    set_many_rows database stored database-Keeps options (text "a") (entry ∷ []) start after_set
      a-IsPlain (entry-IsPlain, tt) sets

get_all_keys_names_example :
    ((k : Text)
      → k ≢ []
      → member (escape_segment k) (text "lid-1~46~0" ∷ [])
        ≡ present (held stored after_set (path (text "a") k)))
    × ((k : Text) → member k (text "lid-1~46~0" ∷ []) ≡ true → IsAllowed k)
get_all_keys_names_example =
    get_all_keys_names database stored database-Keeps options (text "a") (text "lid-1~46~0" ∷ [])
      after_set after_set (λ e. cc) lists
