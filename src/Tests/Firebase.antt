-- ===== src/Tests/Firebase.antt =====
-- The adapters of Firebase at concrete inputs.
use baileys_session_manager.Base.{
  ◌≡◌, ◌≢◌, refl, ap, sym, ◌∙◌, inl, true, Option, none, some, List, [], ◌∷◌, Text, text, text_eq,
  if◌then◌else◌, arith,
}
use baileys_session_manager.Base.Exec.{ok}
use baileys_session_manager.Base.Map.{
  Map, keys, lookup, insert, remove, lookup-insert, lookup-remove,
}
use baileys_session_manager.Adapter.{Entry, overwritten}
use baileys_session_manager.Utils.Retry.{RetryOptions, with_retry}
use baileys_session_manager.Adapters.Firebase.{Opened, client, retried}
use baileys_session_manager.Adapters.Base.{base_with_retry}
use baileys_session_manager.Adapters.Firebase.Steps.{held}
use baileys_session_manager.Adapters.Firestore.{
  Firestore, FirestoreDoc, Write, set_doc, delete_doc, doc_id, set_many, delete_session,
  replace_slashes, deletes,
}
use baileys_session_manager.Adapters.Firestore.Keeps.{Keeps, written, of_session}
use baileys_session_manager.Adapters.Firestore.Ids.{IsSessionId, IsKey, doc_id_collision}
use baileys_session_manager.Adapters.Firestore.Rows.{rewritten, set_many_docs}
use baileys_session_manager.Adapters.Firestore.Deletion.{of_others, delete_session_docs}

abbrev options : RetryOptions
options = record { retries = some 2; min_delay_ms = none; max_delay_ms = some 300 }

-- The documents of a session, without those that another one with the same id hides.
abbrev found : Text → Map FirestoreDoc → Map FirestoreDoc
found sid [] = []
found sid ((i, doc) ∷ m) =
    let rest = found sid m in if text_eq doc.session_id sid then (i, doc) ∷ rest else remove i rest

lookup-found :
    (sid i : Text) (m : Map FirestoreDoc) → lookup i (found sid m) ≡ of_session sid (lookup i m)
unfolding lookup
lookup-found sid i [] = refl
lookup-found sid i ((j, doc) ∷ m) =
    ground (arith, lookup-found sid i m, lookup-remove j i (found sid m))

abbrev applied : List Write → Map FirestoreDoc → Map FirestoreDoc
applied [] m = m
applied (set_doc i doc ∷ ws) m = applied ws (insert i doc m)
applied (delete_doc i ∷ ws) m = applied ws (remove i m)

lookup-applied :
    (ws : List Write) (i : Text) (m : Map FirestoreDoc)
    → lookup i (applied ws m) ≡ written ws i (lookup i m)
lookup-applied [] i m = refl
lookup-applied (set_doc j doc ∷ ws) i m =
    lookup-applied ws i (insert j doc m) ∙ ap (written ws i) (lookup-insert j i doc m)
lookup-applied (delete_doc j ∷ ws) i m =
    lookup-applied ws i (remove j m) ∙ ap (written ws i) (lookup-remove j i m)

-- A Firestore that never fails, with a clock that stands still.
abbrev firestore : Firestore (Map FirestoreDoc)
firestore = record {
  get_app = λ s. (ok tt, s);
  get_doc = λ i s. (ok (lookup i s), s);
  where_session = λ sid s. (ok (found sid s), s);
  get_all = λ s. (ok s, s);
  delete_one = λ i s. (ok tt, remove i s);
  commit = λ ws s. (ok tt, applied ws s);
  sleep = λ ms s. s;
  clock = λ s. 7;
}

abbrev docs_of : Map FirestoreDoc → Text → Option FirestoreDoc
docs_of s i = lookup i s

firestore-Keeps : Keeps firestore docs_of
firestore-Keeps = record {
  stored-get_doc = λ i s. refl;
  stored-where_session = λ sid s. refl;
  stored-sleep = λ ms s. refl;
  get_doc_lem = λ i s doc e. ground (arith, e);
  where_session_lem = λ sid s docs e i. ap (lookup i) (sym (ok-injective e)) ∙ lookup-found sid i s;
  commit_lem = λ ws s. inl (refl, λ i _. lookup-applied ws i s);
}
  where
    ok-injective : {A : Type 0} {a b : A} → ok a ≡ ok b → a ≡ b
    ok-injective e = cc

abbrev entry : Entry
entry = record { key = text "creds"; value = text "v" }

abbrev start : Opened (Map FirestoreDoc)
start = record { db = true; state = [] }

abbrev doc : FirestoreDoc
doc = record {
  session_id = text "a";
  key = text "creds";
  value = text "v";
  updated_at = 7;
  version = 1;
}

abbrev after_set : Opened (Map FirestoreDoc)
after_set = record { db = true; state = (text "a__creds", doc) ∷ [] }

sets : set_many firestore options (text "a") (entry ∷ []) start ≡ (ok tt, after_set)
unfolding set_many insert client base_with_retry with_retry
    baileys_session_manager.Adapters.Firestore.sets doc_id replace_slashes
sets = refl

a-IsSessionId : IsSessionId (text "a")
a-IsSessionId = ((omega arith, tt), (omega arith, tt))

b-IsSessionId : IsSessionId (text "b")
b-IsSessionId = ((omega arith, tt), (omega arith, tt))

creds-IsKey : IsKey (text "creds")
creds-IsKey = (omega arith, (omega arith, (omega arith, (omega arith, (omega arith, tt)))))

set_many_docs_example :
    ((key : Text)
      → IsKey key
      → held docs_of after_set (doc_id (text "a") key)
        ≡ rewritten (text "a") key 7 (overwritten (entry ∷ []) key none) none)
    × ((t key : Text)
        → IsSessionId t
        → text "a" ≢ t
        → IsKey key
        → held docs_of after_set (doc_id t key) ≡ none)
unfolding lookup
set_many_docs_example =
    set_many_docs firestore docs_of firestore-Keeps options (text "a") (entry ∷ []) start after_set
      a-IsSessionId (creds-IsKey, tt) sets

deletes_session : delete_session firestore options (text "a") after_set ≡ (ok tt, start)
unfolding delete_session retried base_with_retry with_retry client text_eq deletes keys remove
deletes_session = refl

delete_session_docs_example :
    held docs_of start (text "a__creds")
    ≡ of_others (text "a") (held docs_of after_set (text "a__creds"))
delete_session_docs_example =
    delete_session_docs firestore docs_of firestore-Keeps options (text "a") after_set start
      deletes_session (text "a__creds")

doc_id_collision_example : doc_id (text "a__b") (text "k") ≡ doc_id (text "a") (text "b__k")
doc_id_collision_example = doc_id_collision (text "a") (text "b") (text "k")
