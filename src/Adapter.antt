-- ===== src/Adapter.antt =====
-- src/types.ts: the rows that a database holds, and the operations that every database adapter
-- has. `D` is the state of a database, with all that its driver keeps.
use baileys_session_manager.Base.{
  ℕ, ◌≡◌, ◌⊎◌, ◌↔◌, Bool, true, false, Option, none, some, List, [], ◌∷◌, if◌then◌else◌, Text,
  text_eq,
}
use baileys_session_manager.Base.Exec.{Result, ok, error, Exec}
use baileys_session_manager.Base.Map.{Map, lookup}

pub record SessionRecord : Type 0 where
  pub session_id : Text
  pub key : Text
  pub value : Text
  pub updated_at : ℕ
  pub version : ℕ

-- An element of the argument of `setMany`.
pub record Entry : Type 0 where
  pub key : Text
  pub value : Text

-- `IDatabaseAdapter`.
pub record Adapter (D : Type 0) : Type 0 where
  pub init : Exec D (Unit {0})
  pub get : Text → Text → Exec D (Option SessionRecord)
  pub get_many : Text → List Text → Exec D (Map SessionRecord)
  pub set : Text → Text → Text → Exec D (Unit {0})
  pub set_many : Text → List Entry → Exec D (Unit {0})
  pub delete : Text → Text → Exec D (Unit {0})
  pub delete_many : Text → List Text → Exec D (Unit {0})
  pub get_all_keys : Text → Exec D (List Text)
  pub delete_session : Text → Exec D (Unit {0})
  pub list_sessions : Exec D (List Text)
  pub session_exists : Text → Exec D Bool
  pub close : Exec D (Unit {0})

abbrev pub value_of : Option SessionRecord → Option Text
value_of none = none
value_of (some r) = some r.value

abbrev pub is_some : {A : Type 0} → Option A → Bool
is_some none = false
is_some (some a) = true

-- What entries make of the value under a key: the last one for the key wins.
unfoldable pub overwritten : List Entry → Text → Option Text → Option Text
overwritten [] key old = old
overwritten (e ∷ es) key old = overwritten es key (if text_eq e.key key then some e.value else old)

unfoldable pub member : Text → List Text → Bool
member key [] = false
member key (k ∷ ks) = if text_eq k key then true else member key ks

-- A session has a row.
abbrev pub HasRow : {D : Type 0} → (D → Text → Text → Option SessionRecord) → D → Text → Type 0
HasRow rows d sid = (key : Text) × (is_some (rows d sid key) ≡ true)

-- An operation that failed.
abbrev pub Failed : {A D : Type 0} → Result A × D → Type 0
Failed r = (e : Text) × (r.0 ≡ error e)

-- What callers rely on: `rows` is what the database holds, and `IsSound` is what keeps it well
-- formed. A read returns what is there and changes nothing, or fails, and so do `init` and `close`.
-- Of a write that fails nothing is known but that it leaves other sessions alone.
pub record Laws {D : Type 0} (a : Adapter D) (rows : D → Text → Text → Option SessionRecord)
    (IsSound : D → Type 0) : Type 0 where
  pub rows-get : (sid key : Text) (d : D) → rows (a.get sid key d).1 ≡ rows d
  pub get_lem :
      (sid key : Text) (d : D)
      → ((a.get sid key d).0 ≡ ok (rows d sid key)) ⊎ Failed (a.get sid key d)
  pub rows-get_many : (sid : Text) (ks : List Text) (d : D) → rows (a.get_many sid ks d).1 ≡ rows d
  pub get_many_lem :
      (sid : Text) (ks : List Text) (d : D) (found : Map SessionRecord)
      → IsSound d
      → (a.get_many sid ks d).0 ≡ ok found
      → (key : Text) → lookup key found ≡ (if member key ks then rows d sid key else none)
  pub rows-get_all_keys : (sid : Text) (d : D) → rows (a.get_all_keys sid d).1 ≡ rows d
  pub get_all_keys_lem :
      (sid : Text) (d : D) (ks : List Text)
      → (a.get_all_keys sid d).0 ≡ ok ks
      → (key : Text) → member key ks ≡ is_some (rows d sid key)
  pub set_many_lem :
      (sid : Text) (es : List Entry) (d : D)
      → ((a.set_many sid es d).0 ≡ ok tt)
      → (key : Text)
      → value_of (rows (a.set_many sid es d).1 sid key)
        ≡ overwritten es key (value_of (rows d sid key))
  pub delete_many_lem :
      (sid : Text) (ks : List Text) (d : D)
      → ((a.delete_many sid ks d).0 ≡ ok tt)
      → (key : Text)
      → rows (a.delete_many sid ks d).1 sid key ≡ (if member key ks then none else rows d sid key)
  pub set_many_other :
      (sid other : Text) (es : List Entry) (d : D) (key : Text)
      → text_eq sid other ≡ false
      → rows (a.set_many sid es d).1 other key ≡ rows d other key
  pub delete_many_other :
      (sid other : Text) (ks : List Text) (d : D) (key : Text)
      → text_eq sid other ≡ false
      → rows (a.delete_many sid ks d).1 other key ≡ rows d other key
  pub get_many-IsSound :
      (sid : Text) (ks : List Text) (d : D) → IsSound d → IsSound (a.get_many sid ks d).1
  pub get_all_keys-IsSound : (sid : Text) (d : D) → IsSound d → IsSound (a.get_all_keys sid d).1
  pub set_many-IsSound :
      (sid : Text) (es : List Entry) (d : D) → IsSound d → IsSound (a.set_many sid es d).1
  pub delete_many-IsSound :
      (sid : Text) (ks : List Text) (d : D) → IsSound d → IsSound (a.delete_many sid ks d).1
  pub get-IsSound : (sid key : Text) (d : D) → IsSound d → IsSound (a.get sid key d).1
  pub rows-init : (d : D) → rows (a.init d).1 ≡ rows d
  pub init-IsSound : (d : D) → IsSound d → IsSound (a.init d).1
  pub rows-close : (d : D) → rows (a.close d).1 ≡ rows d
  pub close-IsSound : (d : D) → IsSound d → IsSound (a.close d).1
  pub rows-list_sessions : (d : D) → rows (a.list_sessions d).1 ≡ rows d
  pub list_sessions_lem :
      (d : D) (names : List Text)
      → (a.list_sessions d).0 ≡ ok names
      → (sid : Text) → (member sid names ≡ true) ↔ HasRow rows d sid
  pub list_sessions-IsSound : (d : D) → IsSound d → IsSound (a.list_sessions d).1
  pub rows-session_exists : (sid : Text) (d : D) → rows (a.session_exists sid d).1 ≡ rows d
  pub session_exists_lem :
      (sid : Text) (d : D) (there : Bool)
      → (a.session_exists sid d).0 ≡ ok there
      → (there ≡ true) ↔ HasRow rows d sid
  pub session_exists-IsSound : (sid : Text) (d : D) → IsSound d → IsSound (a.session_exists sid d).1
  pub set_lem :
      (sid key value : Text) (d : D)
      → (a.set sid key value d).0 ≡ ok tt
      → (key' : Text)
      → value_of (rows (a.set sid key value d).1 sid key')
        ≡ (if text_eq key key' then some value else value_of (rows d sid key'))
  pub set_other :
      (sid other key value : Text) (d : D) (key' : Text)
      → text_eq sid other ≡ false
      → rows (a.set sid key value d).1 other key' ≡ rows d other key'
  pub set-IsSound : (sid key value : Text) (d : D) → IsSound d → IsSound (a.set sid key value d).1
  pub delete_lem :
      (sid key : Text) (d : D)
      → (a.delete sid key d).0 ≡ ok tt
      → (key' : Text)
      → rows (a.delete sid key d).1 sid key' ≡ (if text_eq key key' then none else rows d sid key')
  pub delete_other :
      (sid other key : Text) (d : D) (key' : Text)
      → text_eq sid other ≡ false
      → rows (a.delete sid key d).1 other key' ≡ rows d other key'
  pub delete-IsSound : (sid key : Text) (d : D) → IsSound d → IsSound (a.delete sid key d).1
  pub delete_session_lem :
      (sid : Text) (d : D)
      → (a.delete_session sid d).0 ≡ ok tt
      → (key : Text) → rows (a.delete_session sid d).1 sid key ≡ none
  pub delete_session_other :
      (sid other : Text) (d : D) (key : Text)
      → text_eq sid other ≡ false
      → rows (a.delete_session sid d).1 other key ≡ rows d other key
  pub delete_session-IsSound : (sid : Text) (d : D) → IsSound d → IsSound (a.delete_session sid d).1
