-- ===== src/Adapters/Firestore/Keeps.antt =====
-- What firestore-adapter.ts relies on Firestore to do.
use baileys_session_manager.Base.{
  ℕ, ◌≡◌, ◌⊎◌, Option, none, some, List, [], ◌∷◌, Text, text_eq, if◌then◌else◌,
}
use baileys_session_manager.Base.Exec.{ok}
use baileys_session_manager.Base.Map.{Map, lookup}
use baileys_session_manager.Adapter.{Failed}
use baileys_session_manager.Adapters.Firestore.{Firestore, FirestoreDoc, Write, set_doc, delete_doc}

-- What the writes of a batch make of the document under an id: the last one for the id wins.
abbrev pub written : List Write → Text → Option FirestoreDoc → Option FirestoreDoc
written [] i old = old
written (set_doc j doc ∷ ws) i old = written ws i (if text_eq j i then some doc else old)
written (delete_doc j ∷ ws) i old = written ws i (if text_eq j i then none else old)

-- A document, if it is one of a session.
abbrev pub of_session : Text → Option FirestoreDoc → Option FirestoreDoc
of_session sid none = none
of_session sid (some doc) = if text_eq doc.session_id sid then some doc else none

-- The documented behaviour, while no one else changes the documents: `stored` is the document
-- under an id. Any call may fail. A read changes nothing; a query finds the documents whose field
-- has the value; and a batch is committed as a whole or not at all, also if the call fails.
pub record Keeps {S : Type 0} (firestore : Firestore S) (stored : S → Text → Option FirestoreDoc)
    : Type 0 where
  pub stored-get_doc : (i : Text) (s : S) → stored (firestore.get_doc i s).1 ≡ stored s
  pub stored-where_session :
      (sid : Text) (s : S) → stored (firestore.where_session sid s).1 ≡ stored s
  pub stored-sleep : (ms : ℕ) (s : S) → stored (firestore.sleep ms s) ≡ stored s
  pub get_doc_lem :
      (i : Text) (s : S) (doc : Option FirestoreDoc)
      → (firestore.get_doc i s).0 ≡ ok doc
      → doc ≡ stored s i
  pub where_session_lem :
      (sid : Text) (s : S) (docs : Map FirestoreDoc)
      → (firestore.where_session sid s).0 ≡ ok docs
      → (i : Text) → lookup i docs ≡ of_session sid (stored s i)
  pub commit_lem :
      (ws : List Write) (s : S)
      → (((firestore.commit ws s).0 ≡ ok tt)
          × ((i : Text)
              → Unit {0}
              → stored (firestore.commit ws s).1 i ≡ written ws i (stored s i)))
        ⊎ (Failed (firestore.commit ws s)
            × ((stored (firestore.commit ws s).1 ≡ stored s)
                ⊎ ((i : Text)
                    → Unit {0}
                    → stored (firestore.commit ws s).1 i ≡ written ws i (stored s i))))
