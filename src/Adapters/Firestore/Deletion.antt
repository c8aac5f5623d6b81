-- ===== src/Adapters/Firestore/Deletion.antt =====
-- What `deleteSession` of firestore-adapter.ts leaves in the database.
use baileys_session_manager.Base.{
  ◌≡◌, refl, ap, ap₂, sym, ◌∙◌, inl, inr, Bool-cases, Bool, true, false, Option, none, some, List,
  [], ◌∷◌, Text, text_eq, if◌then◌else◌,
}
use baileys_session_manager.Base.Exec.{ok, bind-ok}
use baileys_session_manager.Base.Map.{Map, lookup, keys}
use baileys_session_manager.Adapter.{member}
use baileys_session_manager.Utils.Retry.{RetryOptions}
use baileys_session_manager.Adapters.Firebase.{Opened}
use baileys_session_manager.Adapters.Firebase.Steps.{held, held-retried, retried_from}
use baileys_session_manager.Adapters.Firestore.{
  Firestore, FirestoreDoc, deletes, not_initialised, retried, delete_found, delete_session,
}
use baileys_session_manager.Adapters.Firestore.Keeps.{Keeps, written, of_session}
use baileys_session_manager.Adapters.Firestore.Rows.{committed_lem}

-- A document, unless it is one of the session.
abbrev pub of_others : Text → Option FirestoreDoc → Option FirestoreDoc
of_others sid none = none
of_others sid (some doc) = if text_eq doc.session_id sid then none else some doc

abbrev is_there : Option FirestoreDoc → Bool
is_there none = false
is_there (some doc) = true

either :
    (a b : Bool) (old : Option FirestoreDoc)
    → (if b then none else (if a then none else old))
      ≡ (if (if a then true else b) then none else old)
either true true old = refl
either true false old = refl
either false b old = refl

written-deletes :
    (ids : List Text) (i : Text) (old : Option FirestoreDoc)
    → written (deletes ids) i old ≡ (if member i ids then none else old)
unfolding deletes member
written-deletes [] i old = refl
written-deletes (j ∷ ids) i old =
    written-deletes ids i (if text_eq j i then none else old)
    ∙ either (text_eq j i) (member i ids) old

member-keys : (i : Text) (docs : Map FirestoreDoc) → member i (keys docs) ≡ is_there (lookup i docs)
unfolding member keys lookup
member-keys i [] = refl
member-keys i ((j, doc) ∷ docs) = elim (Bool-cases (text_eq j i)) [
  | inl same ↦ rw same refl
  | inr other ↦ rw other (member-keys i docs)
]

unless_found :
    (sid : Text) (old : Option FirestoreDoc)
    → (if is_there (of_session sid old) then none else old) ≡ of_others sid old
unless_found sid none = refl
unless_found sid (some doc) = elim (Bool-cases (text_eq doc.session_id sid)) [
  | inl same ↦ rw same refl
  | inr other ↦ rw other refl
]

module _ {S : Type 0} (firestore : Firestore S) (stored : S → Text → Option FirestoreDoc)
    (keeps : Keeps firestore stored) (options : RetryOptions) where
  -- The ids that a query finds are deleted, and no others.
  delete_found_lem :
      (docs : Map FirestoreDoc) (c d : Opened S)
      → delete_found firestore options docs c ≡ (ok tt, d)
      → (i : Text) → held stored d i ≡ (if is_there (lookup i docs) then none else held stored c i)
  unfolding delete_found lookup
  delete_found_lem [] c d e i = ap (λ o. held stored o.1 i) (sym e)
  delete_found_lem (x ∷ docs) c d e i =
      committed_lem firestore stored keeps options (deletes (keys (x ∷ docs))) c d e i
      ∙ written-deletes (keys (x ∷ docs)) i (held stored c i)
      ∙ ap (λ b. if b then none else held stored c i) (member-keys i (x ∷ docs))

  -- Over a Firestore that keeps to its documented behaviour, and may fail at any time: a
  -- `deleteSession` that returns has deleted every document of the session and no other.
  pub delete_session_docs :
      (sid : Text) (c d : Opened S)
      → delete_session firestore options sid c ≡ (ok tt, d)
      → (i : Text) → held stored d i ≡ of_others sid (held stored c i)
  unfolding delete_session retried
  delete_session_docs sid c d e i =
      let (docs, s', first, rest) =
        bind-ok (retried firestore options (firestore.where_session sid))
          (delete_found firestore options) c (ap (λ o. o.0) e) in
      let (s, same, read) =
        retried_from stored firestore.sleep not_initialised options (firestore.where_session sid)
          keeps.stored-sleep (keeps.stored-where_session sid) c docs s' first in
      let kept : held stored s' ≡ held stored c =
        ap (λ o. held stored o.1) (sym first)
        ∙ held-retried stored firestore.sleep not_initialised options (firestore.where_session sid)
            keeps.stored-sleep (keeps.stored-where_session sid) c in
      let found : lookup i docs ≡ of_session sid (held stored c i) =
        keeps.where_session_lem sid s docs read i ∙ ap (λ f. of_session sid (f i)) same in
      delete_found_lem docs s' d (sym rest ∙ e) i
      ∙ ap₂ (λ x y. if is_there x then none else y) found (ap (λ f. f i) kept)
      ∙ unless_found sid (held stored c i)
