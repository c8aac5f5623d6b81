-- ===== src/Adapters/Sqlite/Healthy.antt =====
-- The SQLite adapter on a database where no statement fails.
use baileys_session_manager.Base.{
  ℕ, ◌≡◌, refl, ap, ◌∙◌, true, false, Option, List, [], ◌∷◌, Text, arith,
}
use baileys_session_manager.Base.Exec.{ok, ◌>>=◌}
use baileys_session_manager.Adapter.{Entry, SessionRecord, value_of, overwritten}
use baileys_session_manager.Utils.Retry.{RetryOptions, with_retry}
use baileys_session_manager.Utils.Retry.Attempts.{start_of, with_retry_succeeds}
use baileys_session_manager.Adapters.Base.{base_with_retry}
use baileys_session_manager.Adapters.Sqlite.{call, sleep, set_many, get, as_row, to_optional}
use baileys_session_manager.Adapters.Sqlite.Worker.{
  Store, Row, Op, Reply, nothing, row, handle, prepare, execute, strike, fault_or, reads, writes,
  select, upsert_all,
}
use baileys_session_manager.Adapters.Table.Rows.{written}

-- An open database with its table.
abbrev pub healthy : List Row → ℕ → Store
healthy table now = record { created = true; closed = false; table = table; now = now; faults = [] }

call_once :
    (options : RetryOptions) (op : Op) (s t : Store) (a : Reply)
    → handle op s ≡ (ok a, t)
    → call options op s ≡ (ok a, t)
unfolding call base_with_retry start_of
call_once options op s t a h =
    let (result, state, _) =
      with_retry_succeeds sleep (handle op) options 0 s t a (omega arith)
        (λ i p. absurd (omega arith)) h in
    ap (λ r. (r, (with_retry sleep (handle op) options s).state)) result ∙ ap (λ u. (ok a, u)) state

module _ (options : RetryOptions) (table : List Row) (now : ℕ) (sid : Text) where
  set_many-healthy :
      (es : List Entry)
      → set_many options sid es (healthy table now)
        ≡ (ok tt, healthy (upsert_all sid es now table) now)
  unfolding set_many handle prepare execute strike fault_or writes upsert_all
  set_many-healthy [] = refl
  set_many-healthy (e ∷ es) =
      rw
        (call_once options (Op.set_many sid (e ∷ es)) (healthy table now)
          (healthy (upsert_all sid (e ∷ es) now table) now) nothing refl)
        refl

  get-healthy :
      (key : Text)
      → get options sid key (healthy table now)
        ≡ (ok (to_optional (select sid key table)), healthy table now)
  unfolding get handle prepare execute strike fault_or reads as_row
  get-healthy key =
      rw
        (call_once options (Op.get sid key) (healthy table now) (healthy table now)
          (row (select sid key table)) refl)
        refl

-- On an open database where no statement fails, a `setMany` and a `get` after it return, and the
-- `get` sees the last value that was given for its key, or the old one.
pub get-set_many :
    (options : RetryOptions) (table : List Row) (now : ℕ) (sid : Text) (es : List Entry)
    (key : Text)
    → (found : Option SessionRecord) × (((set_many options sid es >>= λ _. get options sid key)
          (healthy table now)).0
        ≡ ok found)
      × (value_of found ≡ overwritten es key (value_of (to_optional (select sid key table))))
get-set_many options table now sid es key =
    let table' = upsert_all sid es now table in
    (
      to_optional (select sid key table'),
      rw (set_many-healthy options table now sid es, get-healthy options table' now sid key) refl,
      written sid es key now table,
    )
