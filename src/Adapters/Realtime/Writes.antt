-- ===== src/Adapters/Realtime/Writes.antt =====
-- What `setMany` of firebase-realtime-adapter.ts leaves in the database.
use baileys_session_manager.Base.{
  ℕ, ◌+◌, ◌≡◌, ◌≢◌, refl, ap, ◌∙◌, inl, inr, Bool-cases, true, false, Option, none, some, List, [],
  ◌∷◌, All, map, Text, text_eq, text_eq_iff, if◌then◌else◌, arith,
}
use baileys_session_manager.Base.Exec.{ok}
use baileys_session_manager.Base.Map.{Map, lookup, lookup-insert, Every, insert-Every}
use baileys_session_manager.Adapter.{SessionRecord, Entry, overwritten}
use baileys_session_manager.Utils.Retry.{RetryOptions}
use baileys_session_manager.Adapters.Firebase
use baileys_session_manager.Adapters.Firebase.{Opened, client, client-cases}
use baileys_session_manager.Adapters.Firebase.Steps.{held, retried_write}
use baileys_session_manager.Adapters.Realtime.{
  StoredValue, Database, path, version_of, writes, not_initialised, retried,
}
use baileys_session_manager.Adapters.Realtime.Paths.{IsTildeFree, path-injective}
use baileys_session_manager.Adapters.Realtime.Keeps.{Keeps, IsRow, changed, path-IsRow}

-- A session id or key whose path no other has.
abbrev pub IsPlain : Text → Type 0
IsPlain t = IsTildeFree t × (t ≢ [])

abbrev pub keys_of : List Entry → List Text
keys_of es = map (λ e. e.key) es

-- What a write makes of a row: the new value, if there is one, with the time and the next version.
abbrev pub rewritten : ℕ → Option Text → Option StoredValue → ℕ → Option StoredValue
rewritten now none old version = old
rewritten now (some v) old version =
    some (record { value = v; updated_at = now; version = version + 1 })

-- The entry of `update` for a value, if there is one.
abbrev pub change : ℕ → ℕ → Option Text → Option (Option StoredValue)
change now version none = none
change now version (some v) =
    some (some (record { value = v; updated_at = now; version = version + 1 }))

pub changed-change :
    (now version : ℕ) (v : Option Text) (old : Option StoredValue)
    → changed (change now version v) old ≡ rewritten now v old version
changed-change now version none old = refl
changed-change now version (some v) old = refl

text_eq-path :
    (s t k j : Text)
    → IsPlain s
    → IsPlain t
    → IsPlain k
    → IsPlain j
    → text_eq (path s k) (path t j) ≡ true
    → (s ≡ t) × (k ≡ j)
text_eq-path s t k j ps pt pk pj e =
    path-injective s t k j ps.0 pt.0 pk.0 pj.0 pk.1 pj.1 ((text_eq_iff (path s k) (path t j)).0 e)

text_eq-apart : (s k j : Text) → text_eq (path s k) (path s j) ≡ false → text_eq k j ≡ false
text_eq-apart s k j e = elim (Bool-cases (text_eq k j)) [
  | inl same ↦ absurd (
      ground
        (arith, e, (text_eq_iff (path s k) (path s j)).1 (ap (path s) ((text_eq_iff k j).0 same))))
  | inr other ↦ other
]

-- The changes that the entries make: the last one for each key.
pub lookup-writes :
    (s : Text) (now : ℕ) (existing : Map SessionRecord) (es : List Entry)
    (acc : Map (Option StoredValue)) (key : Text) (old : Option Text)
    → IsPlain s
    → IsPlain key
    → All (λ e. IsPlain e.key) es
    → lookup (path s key) acc ≡ change now (version_of (lookup key existing)) old
    → lookup (path s key) (writes s now existing es acc)
      ≡ change now (version_of (lookup key existing)) (overwritten es key old)
unfolding writes overwritten
lookup-writes s now existing [] acc key old ps pk pes h = h
lookup-writes s now existing (e ∷ es) acc key old ps pk (pe, pes) h =
    lookup-writes s now existing es _ key (if text_eq e.key key then some e.value else old) ps pk
      pes
      (lookup-insert (path s e.key) (path s key) _ acc
        ∙ elim (Bool-cases (text_eq (path s e.key) (path s key))) [
          | inl same ↦
              let k : e.key ≡ key = (text_eq-path s s e.key key ps ps pe pk same).1 in
              rw same (
                rw ((text_eq_iff e.key key).1 k)
                  (ap (λ j. change now (version_of (lookup j existing)) (some e.value)) k))
          | inr other ↦ rw other (rw (text_eq-apart s e.key key other) h)
        ])

-- The rows of other sessions are in no change.
pub lookup-writes_other :
    (s t : Text) (now : ℕ) (existing : Map SessionRecord) (es : List Entry)
    (acc : Map (Option StoredValue)) (key : Text)
    → IsPlain s
    → IsPlain t
    → s ≢ t
    → IsPlain key
    → All (λ e. IsPlain e.key) es
    → lookup (path t key) acc ≡ none
    → lookup (path t key) (writes s now existing es acc) ≡ none
unfolding writes
lookup-writes_other s t now existing [] acc key ps pt ne pk pes h = h
lookup-writes_other s t now existing (e ∷ es) acc key ps pt ne pk (pe, pes) h =
    lookup-writes_other s t now existing es _ key ps pt ne pk pes (
      lookup-insert (path s e.key) (path t key) _ acc
      ∙ elim (Bool-cases (text_eq (path s e.key) (path t key))) [
        | inl same ↦ absurd (ne (text_eq-path s t e.key key ps pt pe pk same).0)
        | inr other ↦ rw other h
      ])

pub writes-IsRow :
    (s : Text) (now : ℕ) (existing : Map SessionRecord) (es : List Entry)
    (acc : Map (Option StoredValue))
    → IsPlain s
    → All (λ e. IsPlain e.key) es
    → Every (λ p v. IsRow p) acc
    → Every (λ p v. IsRow p) (writes s now existing es acc)
unfolding writes
writes-IsRow s now existing [] acc ps pes h = h
writes-IsRow s now existing (e ∷ es) acc ps (pe, pes) h =
    writes-IsRow s now existing es _ ps pes
      (insert-Every (λ p v. IsRow p) (path s e.key) _ acc (path-IsRow s e.key ps.1 pe.1) h)

changed_twice :
    (x : Option (Option StoredValue)) (old : Option StoredValue)
    → changed x (changed x old) ≡ changed x old
changed_twice none old = refl
changed_twice (some new) old = refl

-- An update that returns, after any number of attempts, has been made.
pub retried_update :
    {S : Type 0} (database : Database S) (stored : S → Text → Option StoredValue)
    (keeps : Keeps database stored) (options : RetryOptions) (m : Map (Option StoredValue))
    → Every (λ p v. IsRow p) m
    → (c d : Opened S) → retried database options (database.update m) c ≡ (ok tt, d)
    → (p : Text) → IsRow p
    → held stored d p ≡ changed (lookup p m) (held stored c p)
unfolding retried Firebase.retried
retried_update database stored keeps options m rows =
    retried_write stored database.sleep not_initialised (client not_initialised (database.update m))
      options (database.update m) IsRow (λ p. changed (lookup p m))
      (λ p. changed_twice (lookup p m)) keeps.stored-sleep
      (client-cases not_initialised (database.update m)) (λ s. keeps.update_lem m s rows)
