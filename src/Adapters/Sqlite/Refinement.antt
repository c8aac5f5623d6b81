-- ===== src/Adapters/Sqlite/Refinement.antt =====
-- The SQLite adapter does what callers of a database adapter rely on.
use baileys_session_manager.Base.{
  ◌≡◌, refl, arith, some, ◌∷◌, Text, text_eq, text_eq_refl, false, not, ◌&&◌, none, List, [], keep,
  ap, sym, ◌∙◌, if◌then◌else◌,
}
use baileys_session_manager.Base.Exec.{ok}
use baileys_session_manager.Base.Map.{Map, lookup}
use baileys_session_manager.Adapter.{
  Laws, Entry, SessionRecord, member, is_some, value_of, overwritten,
}
use baileys_session_manager.Utils.Retry.{RetryOptions}
use baileys_session_manager.Adapters.Sqlite.{
  to_optional, collect, set, delete, list_sessions, session_exists, init, get, get_many, set_many,
  delete_many, get_all_keys, sqlite_adapter,
}
use baileys_session_manager.Adapters.Sqlite.Worker.{
  Store, distinct_sessions, select, is_in, upsert_all,
}
use baileys_session_manager.Adapters.Table.Rows.{
  Unique, upsert_all-Unique, select-upsert_all_other, keep-Unique, member-names, keys_of,
  is_some-to_optional, found, deleted, written,
}
use baileys_session_manager.Adapters.Sqlite.Answers.{
  visible, IsKeyed, Reads-rows, Reads-IsKeyed, Reads-answer, Reads-ok, writes_lem, Writes-ok,
  get-Reads, get_many-Reads, get_all_keys-Reads, set_many-Writes, delete_many-Writes,
}
use baileys_session_manager.Adapters.Table.Sessions.{has_session}
use baileys_session_manager.Adapters.Sqlite.Sessions.{
  delete_session_law, delete_session-Clearing, list_sessions_law, session_exists_law, init-Reads,
  list_sessions-Reads, session_exists-Reads, close_table,
}

module _ (options : RetryOptions) where
  get_many_law :
      (sid : Text) (ks : List Text) (s : Store) (m : Map SessionRecord)
      → IsKeyed s
      → (get_many options sid ks s).0 ≡ ok m
      → (key : Text) → lookup key m ≡ (if member key ks then visible s sid key else none)
  get_many_law sid ks s m u h key =
      ap (lookup key) (
        Reads-ok (λ l. collect (keep (is_in sid ks) l) []) s (get_many options sid ks s) m
          (get_many-Reads options sid ks s) h)
      ∙ found sid ks key s.table u

  get_all_keys_law :
      (sid : Text) (s : Store) (ks : List Text)
      → (get_all_keys options sid s).0 ≡ ok ks
      → (key : Text) → member key ks ≡ is_some (visible s sid key)
  get_all_keys_law sid s ks h key =
      ap (member key) (
        Reads-ok (keys_of sid) s (get_all_keys options sid s) ks (get_all_keys-Reads options sid s)
          h)
      ∙ member-names sid key s.table
      ∙ sym (is_some-to_optional (select sid key s.table))

  set_many_law :
      (sid : Text) (es : List Entry) (s : Store)
      → (set_many options sid es s).0 ≡ ok tt
      → (key : Text)
      → value_of (visible (set_many options sid es s).1 sid key)
        ≡ overwritten es key (value_of (visible s sid key))
  set_many_law sid es s h key =
      let (now, e) =
        Writes-ok (upsert_all sid es) s (set_many options sid es s) tt
          (set_many-Writes options sid es s) h in
      ap (λ l. value_of (to_optional (select sid key l))) e ∙ written sid es key now s.table

  delete_many_law :
      (sid : Text) (ks : List Text) (s : Store)
      → (delete_many options sid ks s).0 ≡ ok tt
      → (key : Text)
      → visible (delete_many options sid ks s).1 sid key
        ≡ (if member key ks then none else visible s sid key)
  delete_many_law sid ks s h key =
      let (now, e) =
        Writes-ok (λ _. keep (λ r. not (is_in sid ks r))) s (delete_many options sid ks s) tt
          (delete_many-Writes options sid ks s) h in
      ap (λ l. to_optional (select sid key l)) e
      ∙ deleted sid ks s.table sid key
      ∙ ap (λ b. if b && member key ks then none else visible s sid key) (text_eq_refl sid)

  set_many_other_law :
      (sid other : Text) (es : List Entry) (s : Store) (key : Text)
      → text_eq sid other ≡ false
      → visible (set_many options sid es s).1 other key ≡ visible s other key
  set_many_other_law sid other es s key ne =
      writes_lem (λ l. to_optional (select other key l) ≡ visible s other key) (upsert_all sid es) s
        (set_many options sid es s) (set_many-Writes options sid es s) refl
        (λ now. ap to_optional (select-upsert_all_other sid es now s.table other key ne))

  delete_many_other_law :
      (sid other : Text) (ks : List Text) (s : Store) (key : Text)
      → text_eq sid other ≡ false
      → visible (delete_many options sid ks s).1 other key ≡ visible s other key
  delete_many_other_law sid other ks s key ne =
      writes_lem (λ l. to_optional (select other key l) ≡ visible s other key)
        (λ _. keep (λ r. not (is_in sid ks r))) s (delete_many options sid ks s)
        (delete_many-Writes options sid ks s) refl
        (λ now.
          deleted sid ks s.table other key
          ∙ ap (λ b. if b && member key ks then none else visible s other key) ne)

  set_many-IsKeyed :
      (sid : Text) (es : List Entry) (s : Store) → IsKeyed s → IsKeyed (set_many options sid es s).1
  set_many-IsKeyed sid es s u =
      writes_lem Unique (upsert_all sid es) s (set_many options sid es s)
        (set_many-Writes options sid es s) u (λ now. upsert_all-Unique sid es now s.table u)

  delete_many-IsKeyed :
      (sid : Text) (ks : List Text) (s : Store)
      → IsKeyed s
      → IsKeyed (delete_many options sid ks s).1
  delete_many-IsKeyed sid ks s u =
      writes_lem Unique (λ _. keep (λ r. not (is_in sid ks r))) s (delete_many options sid ks s)
        (delete_many-Writes options sid ks s) u (λ now. keep-Unique sid ks s.table u)

  set_law :
      (sid key value : Text) (s : Store)
      → (set options sid key value s).0 ≡ ok tt
      → (key' : Text)
      → value_of (visible (set options sid key value s).1 sid key')
        ≡ (if text_eq key key' then some value else value_of (visible s sid key'))
  unfolding set overwritten
  set_law sid key value s h key' =
      set_many_law sid (record { key = key; value = value } ∷ []) s h key'

  delete_law :
      (sid key : Text) (s : Store)
      → (delete options sid key s).0 ≡ ok tt
      → (key' : Text)
      → visible (delete options sid key s).1 sid key'
        ≡ (if text_eq key key' then none else visible s sid key')
  unfolding delete member
  delete_law sid key s h key' = ground (arith, delete_many_law sid (key ∷ []) s h key')

-- The SQLite adapter meets what its callers rely on, whichever statements fail: `get`,
-- `getAllKeys`, `listSessions`, `sessionExists` and, on a table whose rows have different keys,
-- `getMany` return what the table holds and change no row, or fail; a `set` or `setMany` that
-- returns, after any number of attempts, has left the last value of each of its keys and changed
-- no other value of the session; a `delete` or `deleteMany` that returns has removed the rows of
-- its keys and no others of the session, and a `deleteSession` that returns all of them; these
-- five never touch the rows of another session, also if they fail; `init` and `close` change no
-- row; and from a table whose rows have different keys, none of the operations makes one that has
-- a key twice.
pub sqlite_adapter-Laws : (options : RetryOptions) → Laws (sqlite_adapter options) visible IsKeyed
unfolding sqlite_adapter set delete
sqlite_adapter-Laws options = record {
  rows-get = λ sid key s.
      Reads-rows (λ l. to_optional (select sid key l)) s (get options sid key s)
        (get-Reads options sid key s);
  get_lem = λ sid key s.
      Reads-answer (λ l. to_optional (select sid key l)) s (get options sid key s)
        (get-Reads options sid key s);
  rows-get_many = λ sid ks s.
      Reads-rows (λ l. collect (keep (is_in sid ks) l) []) s (get_many options sid ks s)
        (get_many-Reads options sid ks s);
  get_many_lem = get_many_law options;
  rows-get_all_keys = λ sid s.
      Reads-rows (keys_of sid) s (get_all_keys options sid s) (get_all_keys-Reads options sid s);
  get_all_keys_lem = get_all_keys_law options;
  set_many_lem = set_many_law options;
  delete_many_lem = delete_many_law options;
  set_many_other = set_many_other_law options;
  delete_many_other = delete_many_other_law options;
  get_many-IsSound = λ sid ks s u.
      Reads-IsKeyed (λ l. collect (keep (is_in sid ks) l) []) s (get_many options sid ks s)
        (get_many-Reads options sid ks s) u;
  get_all_keys-IsSound = λ sid s u.
      Reads-IsKeyed (keys_of sid) s (get_all_keys options sid s) (get_all_keys-Reads options sid s)
        u;
  set_many-IsSound = set_many-IsKeyed options;
  get-IsSound = λ sid key s u.
      Reads-IsKeyed (λ l. to_optional (select sid key l)) s (get options sid key s)
        (get-Reads options sid key s) u;
  rows-init = λ s. Reads-rows (λ l. tt {0}) s (init options s) (init-Reads options s);
  init-IsSound = λ s u. Reads-IsKeyed (λ l. tt {0}) s (init options s) (init-Reads options s) u;
  rows-close = λ s. ap (λ l sid key. to_optional (select sid key l)) (close_table options s);
  close-IsSound = λ s u. rw (close_table options s) u;
  rows-list_sessions = λ s.
      Reads-rows (distinct_sessions []) s (list_sessions options s) (list_sessions-Reads options s);
  list_sessions_lem = list_sessions_law options;
  list_sessions-IsSound = λ s u.
      Reads-IsKeyed (distinct_sessions []) s (list_sessions options s)
        (list_sessions-Reads options s) u;
  rows-session_exists = λ sid s.
      Reads-rows (has_session sid) s (session_exists options sid s)
        (session_exists-Reads options sid s);
  session_exists_lem = session_exists_law options;
  session_exists-IsSound = λ sid s u.
      Reads-IsKeyed (has_session sid) s (session_exists options sid s)
        (session_exists-Reads options sid s) u;
  set_lem = set_law options;
  set_other = λ sid other key value s key' ne.
      set_many_other_law options sid other (record { key = key; value = value } ∷ []) s key' ne;
  set-IsSound = λ sid key value s u.
      set_many-IsKeyed options sid (record { key = key; value = value } ∷ []) s u;
  delete_lem = delete_law options;
  delete_other =
      λ sid other key s key' ne. delete_many_other_law options sid other (key ∷ []) s key' ne;
  delete-IsSound = λ sid key s u. delete_many-IsKeyed options sid (key ∷ []) s u;
  delete_session_lem = delete_session_law options;
  delete_session_other = λ sid other s key ne.
      ap to_optional ((delete_session-Clearing options sid s).others other key ne);
  delete_session-IsSound = λ sid s u. (delete_session-Clearing options sid s).unique u;
  delete_many-IsSound = λ sid ks s u. delete_many-IsKeyed options sid ks s u;
}
