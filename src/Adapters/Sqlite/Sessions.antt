-- ===== src/Adapters/Sqlite/Sessions.antt =====
-- `init`, `close` and the operations of the SQLite adapter on whole sessions.
use baileys_session_manager.Base.{
  ℕ, ◌≡◌, refl, true, Text, text_eq, not, List, [], keep, ap, arith, ◌↔◌, Bool, none, ◌∙◌,
}
use baileys_session_manager.Base.Exec.{Result, ok, error, continue}
use baileys_session_manager.Adapter.{HasRow, member}
use baileys_session_manager.Utils.Retry.{RetryOptions}
use baileys_session_manager.Adapters.Sqlite.{
  as_names, to_optional, init, list_sessions, session_exists, delete_session, close, as_flag,
}
use baileys_session_manager.Adapters.Sqlite.Worker.{
  Store, Row, Op, Reply, handle, prepare, select, names, flag, execute, distinct_sessions,
}
use baileys_session_manager.Adapters.Table.Sessions.{
  has_session, has_session_iff, member-distinct_sessions, select-cleared, Clearing, refl-Clearing,
  keep-Clearing,
}
use baileys_session_manager.Adapters.Sqlite.Calls.{
  Reads, Writes, call-Reads, call-Writes, then-Reads, then-Writes, prepare_table, execute_table,
}
use baileys_session_manager.Adapters.Sqlite.Answers.{
  visible, Reads-ok, writes_lem, Writes-ok, then-answer, then-done,
}

init-reply : (t : Store) → Reads (λ l. Reply.nothing) t (handle Op.init t).0 (handle Op.init t).1
unfolding handle
init-reply t = go (execute t) (execute_table t)
  where
    made : Unit {0} → Store → Result Reply × Store
    made u s = (ok Reply.nothing, record s { created = true })

    go :
        (out : Result (Unit {0}) × Store)
        → out.1.table ≡ t.table
        → Reads
            (λ l. Reply.nothing)
            t
            (continue {0, 0, 0} made out).0
            (continue {0, 0, 0} made out).1
    go (ok u, s) same = (same, refl)
    go (error x, s) same = same

-- The operations on whole sessions, `init` and `close`.
module _ (options : RetryOptions) where
  pub init-Reads : (s : Store) → Reads (λ l. tt {0}) s (init options s).0 (init options s).1
  unfolding init
  init-Reads s =
      then-answer (λ l. Reply.nothing) (λ _. tt {0}) s _ _
        (call-Reads options Op.init (λ l. Reply.nothing) init-reply s)

  pub list_sessions-Reads :
      (s : Store)
      → Reads (distinct_sessions []) s (list_sessions options s).0 (list_sessions options s).1
  unfolding list_sessions as_names handle
  list_sessions-Reads s =
      let reply : List Row → Reply = λ l. names (distinct_sessions [] l) in
      then-answer reply as_names s _ _ (
        call-Reads options Op.list_sessions reply
          (λ t. then-Reads prepare reply t (prepare_table t)) s)

  pub session_exists-Reads :
      (sid : Text) (s : Store)
      → Reads (has_session sid) s (session_exists options sid s).0 (session_exists options sid s).1
  unfolding session_exists as_flag handle
  session_exists-Reads sid s =
      let reply : List Row → Reply = λ l. flag (has_session sid l) in
      then-answer reply as_flag s _ _ (
        call-Reads options (Op.session_exists sid) reply
          (λ t. then-Reads prepare reply t (prepare_table t)) s)

  pub delete_session-Writes :
      (sid : Text) (s : Store)
      → Writes
          (λ _ l. keep (λ r. not (text_eq r.session_id sid)) l)
          s
          (delete_session options sid s).0
          (delete_session options sid s).1
  unfolding delete_session handle
  delete_session-Writes sid s =
      let f : ℕ → List Row → List Row = λ _ l. keep (λ r. not (text_eq r.session_id sid)) l in
      then-done f s _ _ (
        call-Writes options (Op.delete_session sid) f
          (λ t. then-Writes prepare f t (prepare_table t)) s)

  pub close_table : (s : Store) → (close options s).1.table ≡ s.table
  unfolding close handle
  close_table s = refl

-- What they leave and return.
module _ (options : RetryOptions) where
  pub delete_session_law :
      (sid : Text) (s : Store)
      → (delete_session options sid s).0 ≡ ok tt
      → (key : Text) → visible (delete_session options sid s).1 sid key ≡ none
  unfolding to_optional
  delete_session_law sid s h key =
      let (now, e) =
        Writes-ok (λ _. keep (λ r. not (text_eq r.session_id sid))) s (delete_session options sid s)
          tt (delete_session-Writes options sid s) h in
      ap (λ l. to_optional (select sid key l)) e ∙ ap to_optional (select-cleared sid s.table key)

  pub delete_session-Clearing :
      (sid : Text) (s : Store) → Clearing sid s.table (delete_session options sid s).1.table
  delete_session-Clearing sid s =
      writes_lem (Clearing sid s.table) (λ _. keep (λ r. not (text_eq r.session_id sid))) s
        (delete_session options sid s) (delete_session-Writes options sid s)
        (refl-Clearing sid s.table)
        (λ now.
          keep-Clearing sid (λ r. not (text_eq r.session_id sid)) s.table s.table
            (λ r ne. ground (arith, ne)) (refl-Clearing sid s.table))

  pub list_sessions_law :
      (s : Store) (ns : List Text)
      → (list_sessions options s).0 ≡ ok ns
      → (sid : Text) → (member sid ns ≡ true) ↔ HasRow visible s sid
  unfolding member
  list_sessions_law s ns h sid =
      let same : member sid ns ≡ has_session sid s.table =
        ap (member sid) (
          Reads-ok (distinct_sessions []) s (list_sessions options s) ns
            (list_sessions-Reads options s) h)
        ∙ member-distinct_sessions sid [] s.table in
      rw same (has_session_iff sid s.table)

  pub session_exists_law :
      (sid : Text) (s : Store) (there : Bool)
      → (session_exists options sid s).0 ≡ ok there
      → (there ≡ true) ↔ HasRow visible s sid
  session_exists_law sid s there h =
      let same : there ≡ has_session sid s.table =
        Reads-ok (has_session sid) s (session_exists options sid s) there
          (session_exists-Reads options sid s) h in
      rw same (has_session_iff sid s.table)
