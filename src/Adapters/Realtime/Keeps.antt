-- ===== src/Adapters/Realtime/Keeps.antt =====
-- What firebase-realtime-adapter.ts relies on the Realtime Database to do.
use baileys_session_manager.Base.{
  ℕ, ◌≡◌, ◌≢◌, ◌⊎◌, refl, Option, none, some, [], ◌∷◌, ◌++◌, All, Text, text, Bool, true, false,
}
use baileys_session_manager.Base.Exec.{ok}
use baileys_session_manager.Base.Map.{Map, lookup, Every}
use baileys_session_manager.Adapter.{Failed, member}
use baileys_session_manager.Adapters.Realtime.{
  StoredValue, Node, Database, root, path, session_path, object_keys_of, escape_segment,
}
use baileys_session_manager.Adapters.Realtime.Paths.{
  IsAllowed, escape_segment-IsAllowed, escape_segment-ne-nil, path_nonempty,
}

-- The name of a child, and the path of a row.
abbrev pub IsSegment : Text → Type 0
IsSegment a = IsAllowed a × (a ≢ [])

abbrev pub IsRow : Text → Type 0
IsRow p =
    (a b : Text) × IsSegment a × IsSegment b × (p ≡ (root ++ (text "/" ++ a)) ++ (text "/" ++ b))

abbrev pub stored_of : Option Node → Option StoredValue
stored_of none = none
stored_of (some n) = some n.as_stored

abbrev pub present : Option StoredValue → Bool
present none = false
present (some v) = true

-- What a change makes of what was there, if there is one.
abbrev pub changed : Option (Option StoredValue) → Option StoredValue → Option StoredValue
changed none old = old
changed (some new) old = new

-- The documented behaviour, while no one else changes the rows: `stored` is what is stored under
-- each path. Any call may fail. A read changes nothing; the children of a session are its rows;
-- and an update is made in all of its paths or in none, also if it fails.
pub record Keeps {S : Type 0} (database : Database S) (stored : S → Text → Option StoredValue)
    : Type 0 where
  pub stored-once : (p : Text) (s : S) → stored (database.once p s).1 ≡ stored s
  pub stored-sleep : (ms : ℕ) (s : S) → stored (database.sleep ms s) ≡ stored s
  pub once_lem :
      (p : Text) (s : S) (snapshot : Option Node)
      → IsRow p
      → (database.once p s).0 ≡ ok snapshot
      → stored_of snapshot ≡ stored s p
  pub children_lem :
      (a b : Text) (s : S) (snapshot : Option Node)
      → IsSegment a
      → IsSegment b
      → (database.once (root ++ (text "/" ++ a)) s).0 ≡ ok snapshot
      → member b (object_keys_of snapshot)
        ≡ present (stored s ((root ++ (text "/" ++ a)) ++ (text "/" ++ b)))
  pub names_lem :
      (p : Text) (s : S) (snapshot : Option Node)
      → (database.once p s).0 ≡ ok snapshot
      → All IsAllowed (object_keys_of snapshot)
  pub update_lem :
      (m : Map (Option StoredValue)) (s : S)
      → Every (λ p v. IsRow p) m
      → (((database.update m s).0 ≡ ok tt)
          × ((p : Text)
              → IsRow p
              → stored (database.update m s).1 p ≡ changed (lookup p m) (stored s p)))
        ⊎ (Failed (database.update m s)
            × ((stored (database.update m s).1 ≡ stored s)
                ⊎ ((p : Text)
                    → IsRow p
                    → stored (database.update m s).1 p ≡ changed (lookup p m) (stored s p))))

pub escape_segment-IsSegment : (s : Text) → s ≢ [] → IsSegment (escape_segment s)
escape_segment-IsSegment [] ne = absurd (ne refl)
escape_segment-IsSegment (u ∷ s) ne = (escape_segment-IsAllowed (u ∷ s), escape_segment-ne-nil u s)

pub path-IsRow : (s k : Text) → s ≢ [] → k ≢ [] → IsRow (path s k)
unfolding session_path
path-IsRow s k ns nk = (
  escape_segment s,
  escape_segment k,
  escape_segment-IsSegment s ns,
  escape_segment-IsSegment k nk,
  path_nonempty s k nk,
)
