-- ===== src/Adapters/Table/Client/Refinement.antt =====
-- The operations that the adapters of a table have in common do what callers rely on.
use baileys_session_manager.Base.{
  ℕ, ◌≡◌, ap, sym, subst, ◌∙◌, none, List, [], keep, Text, if◌then◌else◌,
}
use baileys_session_manager.Base.Exec.{ok, Exec}
use baileys_session_manager.Base.Map.{Map, lookup}
use baileys_session_manager.Adapter.{Adapter, Laws, SessionRecord, member, is_some}
use baileys_session_manager.Utils.Retry.{RetryOptions}
use baileys_session_manager.Adapters.Table.{
  Row, is_in, select, distinct_sessions, to_optional, collect,
}
use baileys_session_manager.Adapters.Table.Rows.{found, is_some-to_optional, member-names}
use baileys_session_manager.Adapters.Table.Requests.{Request, Answer, Serves}
use baileys_session_manager.Adapters.Table.Client.{
  get, get_many, set_many, delete_many, get_all_keys, set, delete_session, list_sessions,
  session_exists,
}
use baileys_session_manager.Adapters.Table.Sessions.{has_session}
use baileys_session_manager.Adapters.Table.Client.Reads.{
  visible, IsKeyed, keys_of, Reads-visible, Reads-IsKeyed, Reads-answer, Reads-ok, get-Reads,
  get_many-Reads, get_all_keys-Reads, list_sessions-Reads, session_exists-Reads,
}
use baileys_session_manager.Adapters.Table.Client.Writes.{
  set_many_law, delete_many_law, set_many-Writing, delete_many-Removing, set_law, set-Writing,
  delete_law, delete-Removing, Deletes,
}
use baileys_session_manager.Adapters.Table.Client.Sessions.{
  delete_session_law, delete_session-Clearing, list_sessions_law, session_exists_law,
}

module _ {C : Type 0} (attempt : Request → Exec C Answer) (sleep : ℕ → C → C) (clock : C → ℕ)
    (options : RetryOptions) (table : C → List Row) (serves : Serves attempt sleep table) where
  get_many_law :
      (sid : Text) (ks : List Text) (c : C) (m : Map SessionRecord)
      → IsKeyed table c
      → (get_many attempt sleep clock options sid ks c).0 ≡ ok m
      → (key : Text) → lookup key m ≡ (if member key ks then visible table c sid key else none)
  get_many_law sid ks c m u h key =
      ap (lookup key) (
        Reads-ok table (λ l. collect (keep (is_in sid ks) l) []) c
          (get_many attempt sleep clock options sid ks c) m
          (get_many-Reads attempt sleep clock options table serves sid ks c) h)
      ∙ found sid ks key (table c) u

  get_all_keys_law :
      (sid : Text) (c : C) (ks : List Text)
      → (get_all_keys attempt sleep clock options sid c).0 ≡ ok ks
      → (key : Text) → member key ks ≡ is_some (visible table c sid key)
  get_all_keys_law sid c ks h key =
      ap (member key) (
        Reads-ok table (keys_of sid) c (get_all_keys attempt sleep clock options sid c) ks
          (get_all_keys-Reads attempt sleep clock options table serves sid c) h)
      ∙ member-names sid key (table c)
      ∙ sym (is_some-to_optional (select sid key (table c)))

  -- An adapter whose operations are these.
  pub record IsClient (a : Adapter C) : Type 0 where
    pub has_get : a.get ≡ get attempt sleep clock options
    pub has_get_many : a.get_many ≡ get_many attempt sleep clock options
    pub has_get_all_keys : a.get_all_keys ≡ get_all_keys attempt sleep clock options
    pub has_set_many : a.set_many ≡ set_many attempt sleep clock options
    pub has_delete_many : a.delete_many ≡ delete_many attempt sleep clock options
    pub has_set : a.set ≡ set attempt sleep clock options
    pub has_delete_session : a.delete_session ≡ delete_session attempt sleep clock options
    pub has_list_sessions : a.list_sessions ≡ list_sessions attempt sleep clock options
    pub has_session_exists : a.session_exists ≡ session_exists attempt sleep clock options
    pub deletes : Deletes attempt sleep clock options table serves a.delete
    pub table-init : (c : C) → table (a.init c).1 ≡ table c
    pub table-close : (c : C) → table (a.close c).1 ≡ table c

  client-Laws :
      (a : Adapter C)
      → IsClient a
      → Laws
          (record a {
            get = get attempt sleep clock options;
            get_many = get_many attempt sleep clock options;
            get_all_keys = get_all_keys attempt sleep clock options;
            set_many = set_many attempt sleep clock options;
            delete_many = delete_many attempt sleep clock options;
            set = set attempt sleep clock options;
            delete_session = delete_session attempt sleep clock options;
            list_sessions = list_sessions attempt sleep clock options;
            session_exists = session_exists attempt sleep clock options;
          })
          (visible table)
          (IsKeyed table)
  client-Laws a is = record {
    rows-get = λ sid key c.
        Reads-visible table _ c (get attempt sleep clock options sid key c)
          (get-Reads attempt sleep clock options table serves sid key c);
    get_lem = λ sid key c.
        Reads-answer table (λ l. to_optional (select sid key l)) c
          (get attempt sleep clock options sid key c)
          (get-Reads attempt sleep clock options table serves sid key c);
    rows-get_many = λ sid ks c.
        Reads-visible table (λ l. collect (keep (is_in sid ks) l) []) c
          (get_many attempt sleep clock options sid ks c)
          (get_many-Reads attempt sleep clock options table serves sid ks c);
    get_many_lem = get_many_law;
    rows-get_all_keys = λ sid c.
        Reads-visible table (keys_of sid) c (get_all_keys attempt sleep clock options sid c)
          (get_all_keys-Reads attempt sleep clock options table serves sid c);
    get_all_keys_lem = get_all_keys_law;
    set_many_lem = set_many_law attempt sleep clock options table serves;
    delete_many_lem = delete_many_law attempt sleep clock options table serves;
    set_many_other = λ sid other es c key ne.
        ap to_optional (
          (set_many-Writing attempt sleep clock options table serves sid es c).others other key ne);
    delete_many_other = λ sid other ks c key ne. ap to_optional (
        (delete_many-Removing attempt sleep clock options table serves sid ks c).others other key
          ne);
    get_many-IsSound = λ sid ks c u.
        Reads-IsKeyed table (λ l. collect (keep (is_in sid ks) l) []) c
          (get_many attempt sleep clock options sid ks c)
          (get_many-Reads attempt sleep clock options table serves sid ks c) u;
    get_all_keys-IsSound = λ sid c u.
        Reads-IsKeyed table (keys_of sid) c (get_all_keys attempt sleep clock options sid c)
          (get_all_keys-Reads attempt sleep clock options table serves sid c) u;
    set_many-IsSound =
        λ sid es c u. (set_many-Writing attempt sleep clock options table serves sid es c).unique u;
    get-IsSound = λ sid key c u.
        Reads-IsKeyed table (λ l. to_optional (select sid key l)) c
          (get attempt sleep clock options sid key c)
          (get-Reads attempt sleep clock options table serves sid key c) u;
    rows-init = λ c. ap (λ l sid key. to_optional (select sid key l)) (is.table-init c);
    init-IsSound = λ c u. rw (is.table-init c) u;
    rows-close = λ c. ap (λ l sid key. to_optional (select sid key l)) (is.table-close c);
    close-IsSound = λ c u. rw (is.table-close c) u;
    rows-list_sessions = λ c.
        Reads-visible table (distinct_sessions []) c (list_sessions attempt sleep clock options c)
          (list_sessions-Reads attempt sleep clock options table serves c);
    list_sessions_lem = list_sessions_law attempt sleep clock options table serves;
    list_sessions-IsSound = λ c u.
        Reads-IsKeyed table (distinct_sessions []) c (list_sessions attempt sleep clock options c)
          (list_sessions-Reads attempt sleep clock options table serves c) u;
    rows-session_exists = λ sid c.
        Reads-visible table (has_session sid) c (session_exists attempt sleep clock options sid c)
          (session_exists-Reads attempt sleep clock options table serves sid c);
    session_exists_lem = session_exists_law attempt sleep clock options table serves;
    session_exists-IsSound = λ sid c u.
        Reads-IsKeyed table (has_session sid) c (session_exists attempt sleep clock options sid c)
          (session_exists-Reads attempt sleep clock options table serves sid c) u;
    set_lem = set_law attempt sleep clock options table serves;
    set_other = λ sid other key value c key' ne. ap to_optional (
        (set-Writing attempt sleep clock options table serves sid key value c).others other key'
          ne);
    set-IsSound = λ sid key value c u.
        (set-Writing attempt sleep clock options table serves sid key value c).unique u;
    delete_lem = delete_law attempt sleep clock options table serves a.delete is.deletes;
    delete_other = λ sid other key c key' ne. ap to_optional (
        (delete-Removing attempt sleep clock options table serves a.delete is.deletes sid key
            c).others
          other key' ne);
    delete-IsSound = λ sid key c u.
        (delete-Removing attempt sleep clock options table serves a.delete is.deletes sid key
            c).unique
          u;
    delete_session_lem = delete_session_law attempt sleep clock options table serves;
    delete_session_other = λ sid other c key ne. ap to_optional (
        (delete_session-Clearing attempt sleep clock options table serves sid c).others other key
          ne);
    delete_session-IsSound = λ sid c u.
        (delete_session-Clearing attempt sleep clock options table serves sid c).unique u;
    delete_many-IsSound = λ sid ks c u.
        (delete_many-Removing attempt sleep clock options table serves sid ks c).unique u;
  }

  pub adapter-Laws : (a : Adapter C) → IsClient a → Laws a (visible table) (IsKeyed table)
  adapter-Laws a is =
      let same : a ≡ record a {
        get = get attempt sleep clock options;
        get_many = get_many attempt sleep clock options;
        get_all_keys = get_all_keys attempt sleep clock options;
        set_many = set_many attempt sleep clock options;
        delete_many = delete_many attempt sleep clock options;
        set = set attempt sleep clock options;
        delete_session = delete_session attempt sleep clock options;
        list_sessions = list_sessions attempt sleep clock options;
        session_exists = session_exists attempt sleep clock options;
      } =
        λ i. record a {
          get = is.has_get i;
          get_many = is.has_get_many i;
          get_all_keys = is.has_get_all_keys i;
          set_many = is.has_set_many i;
          delete_many = is.has_delete_many i;
          set = is.has_set i;
          delete_session = is.has_delete_session i;
          list_sessions = is.has_list_sessions i;
          session_exists = is.has_session_exists i;
        } in
      subst (λ x. Laws x (visible table) (IsKeyed table)) (sym same) (client-Laws a is)
