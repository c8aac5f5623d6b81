-- ===== src/SessionManager/Transfer.antt =====
-- What an export takes from a session, and what an import makes of it.
use baileys_session_manager.Base.{
  Bool-cases, ◌≡◌, refl, sym, ap, ◌∙◌, Bool, true, Option, none, some, List, [], ◌∷◌, if◌then◌else◌,
  Text, text_eq, text_eq_iff, arith, ◌⊎◌, inl,
}
use baileys_session_manager.Base.Exec.{ok, pure, bind-ok}
use baileys_session_manager.Base.Map.{Map, lookup, insert, Distinct, lookup-insert, insert-Distinct}
use baileys_session_manager.Adapter.{Laws, SessionRecord, member, value_of, overwritten}
use baileys_session_manager.Cache.Manager.{CacheManager, World, on_db, clear_session}
use baileys_session_manager.SessionManager.{
  to_object, to_entries, export_keys, export_session, export_session_to_object, import_session,
  with_value, forget,
}

-- The value, where there is one, or else the other.
abbrev pub or_else : Option Text → Option Text → Option Text
or_else none other = other
or_else (some v) other = some v

overwritten-to_entries :
    (m : Map Text) (key : Text) (old : Option Text)
    → Distinct m
    → overwritten (to_entries m) key old ≡ or_else (lookup key m) old
unfolding overwritten to_entries lookup
overwritten-to_entries [] key old d = refl
overwritten-to_entries ((k, v) ∷ m) key old d = ground (
  arith,
  overwritten-to_entries m key old d.1,
  overwritten-to_entries m key (some v) d.1,
  text_eq_iff k key,
  d.0,
)

to_object-Distinct :
    (pairs : List (Text × Text)) (m : Map Text) → Distinct m → Distinct (to_object pairs m)
unfolding to_object
to_object-Distinct [] m d = d
to_object-Distinct ((k, v) ∷ pairs) m d =
    to_object-Distinct pairs (insert k v m) (insert-Distinct k v m d)

-- Putting a session's own value under its key.
lookup-to_object_cons :
    (key k : Text) (f : Text → Option Text) (found : Option SessionRecord)
    (pairs : List (Text × Text)) (acc : Map Text) (b : Bool)
    → value_of found ≡ f k
    → (lookup key acc ≡ none) ⊎ (lookup key acc ≡ f key)
    → ((acc' : Map Text)
        → (lookup key acc' ≡ none) ⊎ (lookup key acc' ≡ f key)
        → lookup key (to_object pairs acc')
          ≡ (if b then or_else (f key) (lookup key acc') else lookup key acc'))
    → lookup key (to_object (with_value k found pairs) acc) ≡ (
        if (if text_eq k key then true else b)
        then or_else (f key) (lookup key acc)
        else lookup key acc)
unfolding to_object with_value
lookup-to_object_cons key k f none pairs acc b e fits ih =
    let named : text_eq k key ≡ true → f k ≡ f key = λ h. ap f ((text_eq_iff k key).0 h) in
    ground (arith, ih acc fits, e, named, Bool-cases (text_eq k key))
lookup-to_object_cons key k f (some r) pairs acc b e fits ih =
    let named : text_eq k key ≡ true → f k ≡ f key = λ h. ap f ((text_eq_iff k key).0 h) in
    ground (
      arith,
      ih (insert k r.value acc),
      lookup-insert k key r.value acc,
      e,
      named,
      Bool-cases (text_eq k key),
    )

module _ {D R : Type 0} (m : CacheManager D R) (rows : D → Text → Text → Option SessionRecord)
    {IsSound : D → Type 0} (db_laws : Laws m.adapter rows IsSound) where
  got :
      (sid key : Text) (w w' : World D R) (found : Option SessionRecord)
      → on_db (m.adapter.get sid key) w ≡ (ok found, w')
      → (found ≡ rows w.db sid key) × (rows w'.db ≡ rows w.db)
  got sid key w w' found h = (
    ground (arith, ap (λ o. o.0) h, db_laws.get_lem sid key w.db),
    ap (λ o. rows o.1.db) (sym h) ∙ db_laws.rows-get sid key w.db,
  )

  -- The loop over keys yields, for each of them, the value that the database holds.
  lookup-export_keys :
      (held : Text → Text → Option SessionRecord) (sid : Text) (ks : List Text) (w : World D R)
      (pairs : List (Text × Text))
      → rows w.db ≡ held
      → (export_keys m sid ks w).0 ≡ ok pairs
      → (key : Text) (acc : Map Text)
      → (lookup key acc ≡ none) ⊎ (lookup key acc ≡ value_of (held sid key))
      → lookup key (to_object pairs acc) ≡ (
          if member key ks
          then or_else (value_of (held sid key)) (lookup key acc)
          else lookup key acc)
  unfolding export_keys to_object member
  lookup-export_keys held sid [] w pairs same h key acc fits = ground arith
  lookup-export_keys held sid (k ∷ ks) w pairs same h key acc fits =
      let (found, w', first, next) = bind-ok (on_db (m.adapter.get sid k)) _ w h in
      let (here, kept) = got sid k w w' found first in
      let h' = ap (λ o. o.0) (sym next) ∙ h in
      let (others, w'', rest, done) =
        bind-ok (export_keys m sid ks) (λ others. pure (with_value k found others)) w' h' in
      let made : with_value k found others ≡ pairs =
        ground (arith, ap (λ o. o.0) (sym done) ∙ h') in
      rw (← made) (
        lookup-to_object_cons key k (λ k'. value_of (held sid k')) found others acc (member key ks)
          (ap value_of (here ∙ ap (λ f. f sid k) same)) fits
          (lookup-export_keys held sid ks w' others (kept ∙ same) (ap (λ o. o.0) rest) key))

  -- Over a database that keeps its laws: an export that returns has under each key the value that
  -- the database holds for the session, as it is stored, and none where the database has none.
  pub lookup-export_session_to_object :
      (sid : Text) (w : World D R) (obj : Map Text)
      → (export_session_to_object m sid w).0 ≡ ok obj
      → (key : Text) → lookup key obj ≡ value_of (rows w.db sid key)
  unfolding export_session_to_object export_session lookup
  lookup-export_session_to_object sid w obj h key =
      let (pairs, w', all, done) =
        bind-ok (export_session m sid) (λ pairs. pure (to_object pairs [])) w h in
      let (ks, w'', listed, next) =
        bind-ok (on_db (m.adapter.get_all_keys sid)) (export_keys m sid) w (ap (λ o. o.0) all) in
      let same = ap (λ o. rows o.1.db) (sym listed) ∙ db_laws.rows-get_all_keys sid w.db in
      let made : to_object pairs [] ≡ obj = ground (arith, ap (λ o. o.0) (sym done) ∙ h) in
      let named = db_laws.get_all_keys_lem sid w.db ks (ap (λ o. o.0) listed) key in
      let looked =
        lookup-export_keys (rows w.db) sid ks w'' pairs same
          (ap (λ o. o.0) (sym next) ∙ ap (λ o. o.0) all) key [] (inl refl) in
      rw (← made) (looked ∙ ground (arith, named))

  export-Distinct :
      (sid : Text) (w : World D R) (obj : Map Text)
      → (export_session_to_object m sid w).0 ≡ ok obj
      → Distinct obj
  unfolding export_session_to_object
  export-Distinct sid w obj h =
      let (pairs, w', all, done) =
        bind-ok (export_session m sid) (λ pairs. pure (to_object pairs [])) w h in
      let made : to_object pairs [] ≡ obj = ground (arith, ap (λ o. o.0) (sym done) ∙ h) in
      rw (← made) (to_object-Distinct pairs [] tt)

  -- An import that returns.
  import_session-rows :
      (sid : Text) (obj : Map Text) (w : World D R)
      → Distinct obj
      → (import_session m sid obj w).0 ≡ ok tt
      → (key : Text)
      → value_of (rows (import_session m sid obj w).1.db sid key)
        ≡ or_else (lookup key obj) (value_of (rows w.db sid key))
  unfolding import_session forget clear_session
  import_session-rows sid obj w d h key =
      let (u, w', wrote, next) =
        bind-ok (on_db (m.adapter.set_many sid (to_entries obj))) (λ _. forget m sid) w h in
      ap (λ o. value_of (rows o.1.db sid key)) next
      ∙ ap (λ o. value_of (rows o.1.db sid key)) (sym wrote)
      ∙ db_laws.set_many_lem sid (to_entries obj) w.db (ap (λ o. o.0) wrote) key
      ∙ overwritten-to_entries obj key _ d

-- Over databases that keep their laws: a session that is exported from one manager and imported
-- under any id by another is then there as it was. Under each key that it had a value for it has
-- this value, and what the importing session had under other keys stays, if both calls return.
pub import_session-export :
    {D R D' R' : Type 0} (m : CacheManager D R) (rows : D → Text → Text → Option SessionRecord)
    {IsSound : D → Type 0} (db_laws : Laws m.adapter rows IsSound) (m' : CacheManager D' R')
    (rows' : D' → Text → Text → Option SessionRecord) {IsSound' : D' → Type 0}
    (db_laws' : Laws m'.adapter rows' IsSound') (sid sid' : Text) (w : World D R) (w' : World D' R')
    (obj : Map Text)
    → (export_session_to_object m sid w).0 ≡ ok obj
    → (import_session m' sid' obj w').0 ≡ ok tt
    → (key : Text)
    → value_of (rows' (import_session m' sid' obj w').1.db sid' key)
      ≡ or_else (value_of (rows w.db sid key)) (value_of (rows' w'.db sid' key))
import_session-export m rows db_laws m' rows' db_laws' sid sid' w w' obj exported imported key =
    import_session-rows m' rows' db_laws' sid' obj w'
      (export-Distinct m rows db_laws sid w obj exported) imported key
    ∙ ap (λ v. or_else v (value_of (rows' w'.db sid' key)))
        (lookup-export_session_to_object m rows db_laws sid w obj exported key)
