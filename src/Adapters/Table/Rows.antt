-- ===== src/Adapters/Table/Rows.antt =====
-- What the statements on the table of sessions do to its rows.
use baileys_session_manager.Base.{
  ℕ, ◌+◌, ◌≡◌, refl, Bool, false, not, ◌&&◌, Option, none, some, List, [], ◌∷◌, map, keep,
  if◌then◌else◌, Text, text_eq, text_eq_iff, text_eq_refl, arith, ap, sym, ◌∙◌,
}
use baileys_session_manager.Base.Map.{Map, lookup, insert, lookup-insert}
use baileys_session_manager.Adapter.{Entry, SessionRecord, member, value_of, overwritten, is_some}
use baileys_session_manager.Adapters.Table.{collect, to_record, to_optional}
use baileys_session_manager.Adapters.Table.{Row, is_row, select, is_in, upsert, upsert_all}

-- No two rows have one key in one session, as the primary key demands.
abbrev pub Unique : List Row → Type 0
Unique [] = Unit
Unique (r ∷ rs) = (select r.session_id r.key rs ≡ none) × Unique rs

-- The row that an upsert leaves, from the one that was there.
abbrev pub bumped : Text → Text → Text → ℕ → Option Row → Row
bumped sid key value now none = record {
  session_id = sid;
  key = key;
  value = value;
  updated_at = now;
  version = 1;
}
bumped sid key value now (some r) = record r {
  value = value;
  updated_at = now;
  version = r.version + 1;
}

abbrev both : Text → Text → Text → Text → Bool
both s k s' k' = text_eq s s' && text_eq k k'

-- An upsert changes the row under its key alone.
pub select-upsert :
    (sid key value : Text) (now : ℕ) (rs : List Row) (sid' key' : Text)
    → select sid' key' (upsert sid key value now rs) ≡ (
        if both sid key sid' key'
        then some (bumped sid key value now (select sid key rs))
        else select sid' key' rs)
unfolding select upsert is_row
select-upsert sid key value now [] sid' key' = ground arith
select-upsert sid key value now (r ∷ rs) sid' key' = ground (
  arith,
  select-upsert sid key value now rs sid' key',
  text_eq_iff r.session_id sid,
  text_eq_iff r.session_id sid',
  text_eq_iff sid sid',
  text_eq_iff r.key key,
  text_eq_iff r.key key',
  text_eq_iff key key',
)

pub upsert-Unique :
    (sid key value : Text) (now : ℕ) (rs : List Row)
    → Unique rs
    → Unique (upsert sid key value now rs)
unfolding upsert is_row select
upsert-Unique sid key value now [] u = (refl, tt)
upsert-Unique sid key value now (r ∷ rs) u = ground (
  arith,
  upsert-Unique sid key value now rs,
  select-upsert sid key value now rs r.session_id r.key,
  text_eq_iff r.session_id sid,
  text_eq_iff sid r.session_id,
  text_eq_iff r.key key,
  text_eq_iff key r.key,
)

pub upsert_all-Unique :
    (sid : Text) (es : List Entry) (now : ℕ) (rs : List Row)
    → Unique rs
    → Unique (upsert_all sid es now rs)
unfolding upsert_all
upsert_all-Unique sid [] now rs u = u
upsert_all-Unique sid (e ∷ es) now rs u =
    upsert_all-Unique sid es now _ (upsert-Unique sid e.key e.value now rs u)

-- The rows of other sessions are left alone.
pub select-upsert_all_other :
    (sid : Text) (es : List Entry) (now : ℕ) (rs : List Row) (sid' key' : Text)
    → text_eq sid sid' ≡ false
    → select sid' key' (upsert_all sid es now rs) ≡ select sid' key' rs
unfolding upsert_all
select-upsert_all_other sid [] now rs sid' key' h = refl
select-upsert_all_other sid (e ∷ es) now rs sid' key' h = ground (
  arith,
  select-upsert_all_other sid es now (upsert sid e.key e.value now rs) sid' key' h,
  select-upsert sid e.key e.value now rs sid' key',
)

abbrev pub value_in : Option Row → Option Text
value_in none = none
value_in (some r) = some r.value

abbrev pub version_in : Option Row → ℕ
version_in none = 0
version_in (some r) = r.version

-- How often a key is written.
unfoldable pub times : Text → List Entry → ℕ
times key [] = 0
times key (e ∷ es) = (if text_eq e.key key then 1 else 0) + times key es

-- A transaction leaves under each key of the session the last value that it has for it, and adds
-- one to the version for each time that it writes the key.
pub select-upsert_all :
    (sid : Text) (es : List Entry) (now : ℕ) (rs : List Row) (key : Text)
    → (value_in (select sid key (upsert_all sid es now rs))
        ≡ overwritten es key (value_in (select sid key rs)))
      × (version_in (select sid key (upsert_all sid es now rs))
          ≡ version_in (select sid key rs) + times key es)
unfolding upsert_all overwritten times
select-upsert_all sid [] now rs key = (refl, omega arith)
select-upsert_all sid (e ∷ es) now rs key =
    let rs' = upsert sid e.key e.value now rs in
    let (values, versions) = select-upsert_all sid es now rs' key in
    let step = select-upsert sid e.key e.value now rs sid key in
    ground (arith, values, versions, step, text_eq_refl sid, text_eq_iff e.key key)

pub select-keep :
    (sid : Text) (ks : List Text) (rs : List Row) (sid' key' : Text)
    → select sid' key' (keep (λ r. not (is_in sid ks r)) rs)
      ≡ (if text_eq sid sid' && member key' ks then none else select sid' key' rs)
unfolding select keep is_in is_row
select-keep sid ks [] sid' key' = ground arith
select-keep sid ks (r ∷ rs) sid' key' = ground (
  arith,
  select-keep sid ks rs sid' key',
  text_eq_iff r.session_id sid,
  text_eq_iff r.session_id sid',
  text_eq_iff sid sid',
  text_eq_iff r.key key',
)

pub keep-Unique :
    (sid : Text) (ks : List Text) (rs : List Row)
    → Unique rs
    → Unique (keep (λ r. not (is_in sid ks r)) rs)
unfolding keep
keep-Unique sid ks [] u = tt
keep-Unique sid ks (r ∷ rs) u =
    ground (arith, keep-Unique sid ks rs u.1, select-keep sid ks rs r.session_id r.key)

pub lookup-collect :
    (sid : Text) (ks : List Text) (key : Text) (rs : List Row) (found : Map SessionRecord)
    → Unique rs
    → lookup key (collect (keep (is_in sid ks) rs) found) ≡ (
        if member key ks
        then elim (select sid key rs) [ none ↦ lookup key found | some r ↦ some (to_record r) ]
        else lookup key found)
unfolding collect keep select is_in is_row
lookup-collect sid ks key [] found u = ground arith
lookup-collect sid ks key (r ∷ rs) found u = ground (
  arith,
  lookup-collect sid ks key rs found u.1,
  lookup-collect sid ks key rs (insert r.key (to_record r) found) u.1,
  lookup-insert r.key key (to_record r) found,
  text_eq_iff r.session_id sid,
  text_eq_iff r.key key,
  u.0,
)

pub member-names :
    (sid key : Text) (rs : List Row)
    → member key (map (λ r. r.key) (keep (λ r. text_eq r.session_id sid) rs))
      ≡ is_some (select sid key rs)
unfolding member keep select is_row
member-names sid key [] = refl
member-names sid key (r ∷ rs) = ground (arith, member-names sid key rs)

pub keep-is_in-none : (sid : Text) (l : List Row) → keep (is_in sid []) l ≡ []
unfolding keep is_in member
keep-is_in-none sid [] = refl
keep-is_in-none sid (r ∷ l) = ground (arith, keep-is_in-none sid l)

pub keep-not-is_in-none : (sid : Text) (l : List Row) → keep (λ r. not (is_in sid [] r)) l ≡ l
unfolding keep is_in member
keep-not-is_in-none sid [] = refl
keep-not-is_in-none sid (r ∷ l) = ground (arith, keep-not-is_in-none sid l)

-- The keys of a session's rows.
abbrev pub keys_of : Text → List Row → List Text
keys_of sid l = map (λ r. r.key) (keep (λ r. text_eq r.session_id sid) l)

pub value_of-to_optional : (r : Option Row) → value_of (to_optional r) ≡ value_in r
unfolding to_optional to_record
value_of-to_optional none = refl
value_of-to_optional (some r) = refl

pub is_some-to_optional : (r : Option Row) → is_some (to_optional r) ≡ is_some r
unfolding to_optional to_record
is_some-to_optional none = refl
is_some-to_optional (some r) = refl

-- The `IN` of a `getMany` picks at most the first row under a key.
pub found :
    (sid : Text) (ks : List Text) (key : Text) (l : List Row)
    → Unique l
    → lookup key (collect (keep (is_in sid ks) l) [])
      ≡ (if member key ks then to_optional (select sid key l) else none)
unfolding to_optional lookup
found sid ks key l u = ground (arith, lookup-collect sid ks key l [] u)

pub deleted :
    (sid : Text) (ks : List Text) (l : List Row) (sid' key : Text)
    → to_optional (select sid' key (keep (λ r. not (is_in sid ks r)) l))
      ≡ (if text_eq sid sid' && member key ks then none else to_optional (select sid' key l))
unfolding to_optional
deleted sid ks l sid' key = ground (arith, select-keep sid ks l sid' key)

pub written :
    (sid : Text) (es : List Entry) (key : Text) (now : ℕ) (l : List Row)
    → value_of (to_optional (select sid key (upsert_all sid es now l)))
      ≡ overwritten es key (value_of (to_optional (select sid key l)))
written sid es key now l =
    value_of-to_optional (select sid key (upsert_all sid es now l))
    ∙ (select-upsert_all sid es now l key).0
    ∙ ap (overwritten es key) (sym (value_of-to_optional (select sid key l)))
