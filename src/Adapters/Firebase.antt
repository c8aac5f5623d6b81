-- ===== src/Adapters/Firebase.antt =====
-- What firebase-realtime-adapter.ts and firestore-adapter.ts have in common: the handle of an app
-- that they get in `init`, the calls that are made again if they fail, and `getMany`, whose reads
-- are made one after the other here, where the code makes them at the same time.
pub mod Reads
pub mod Steps
use baileys_session_manager.Base.{
  ℕ, ◌≡◌, ◌⊎◌, refl, inl, inr, Bool-cases, Bool, true, Option, none, some, List, [], ◌∷◌, Text,
  if◌then◌else◌,
}
use baileys_session_manager.Base.Exec.{Result, ok, error, Exec, pure, throw, ◌>>=◌, ◌>>◌}
use baileys_session_manager.Base.Map.{Map, insert}
use baileys_session_manager.Adapter.{SessionRecord}
use baileys_session_manager.Utils.Retry.{RetryOptions}
use baileys_session_manager.Adapters.Base.{base_with_retry}

-- `db` stands for `this.db !== null`.
pub record Opened (S : Type 0) : Type 0 where
  pub db : Bool
  pub state : S

module _ {S : Type 0} where
  abbrev pub on_app : {A : Type 0} → Exec S A → Exec (Opened S) A
  on_app m c = let (r, s) = m c.state in (r, record c { state = s })

  -- A call through the getter `client`.
  unfoldable pub client : {A : Type 0} → Text → Exec S A → Exec (Opened S) A
  client message m c = if c.db then on_app m c else throw message c

  abbrev pub slept : (ℕ → S → S) → ℕ → Opened S → Opened S
  slept sleep ms c = record c { state = sleep ms c.state }

  abbrev pub set_db : Exec (Opened S) (Unit {0})
  set_db c = (ok tt, record c { db = true })

  -- `get_app` finds the app or makes it.
  unfoldable pub init : Exec S (Unit {0}) → Exec (Opened S) (Unit {0})
  init get_app = on_app get_app >> set_db

  pub client-cases :
      {A : Type 0} (message : Text) (m : Exec S A) (c : Opened S)
      → (client message m c ≡ on_app m c) ⊎ (client message m c ≡ throw message c)
  unfolding client
  client-cases message m c = elim (Bool-cases c.db) [
    | inl there ↦ inl (rw there refl)
    | inr missing ↦ inr (rw missing refl)
  ]

  -- `this.withRetry(() => this.client…)`
  unfoldable pub retried :
      {A : Type 0} → Text → (ℕ → S → S) → RetryOptions → Exec S A → Exec (Opened S) A
  retried message sleep options m = base_with_retry (slept sleep) options (client message m)

-- `if (record) map.set(key, record)`
unfoldable pub add : Text → Option SessionRecord → Map SessionRecord → Map SessionRecord
add key none found = found
add key (some r) found = insert key r found

unfoldable pub get_each :
    {C : Type 0}
    → (Text → Text → Exec C (Option SessionRecord))
    → Text
    → List Text
    → Map SessionRecord
    → Exec C (Map SessionRecord)
get_each get session_id [] found = pure found
get_each get session_id (k ∷ ks) found = do
  r ← get session_id k
  get_each get session_id ks (add k r found)
