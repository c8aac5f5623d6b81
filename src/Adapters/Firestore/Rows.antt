-- ===== src/Adapters/Firestore/Rows.antt =====
-- What `setMany` of firestore-adapter.ts leaves in the database.
use baileys_session_manager.Base.{
  ℕ, ◌≡◌, ◌≢◌, ◌⊎◌, refl, ap, sym, ◌∙◌, inl, inr, Bool-cases, Bool, false, Option, none, some, List,
  [], ◌∷◌, All, Text, text_eq, text_eq_iff, if◌then◌else◌, arith,
}
use baileys_session_manager.Base.Exec.{ok, pure, bind-ok}
use baileys_session_manager.Adapter.{Entry, overwritten}
use baileys_session_manager.Utils.Retry.{RetryOptions}
use baileys_session_manager.Adapters.Base.{base_with_retry}
use baileys_session_manager.Adapters.Firebase.{Opened, client, client-cases, on_app, slept}
use baileys_session_manager.Adapters.Firebase.Steps.{held, retried_write}
use baileys_session_manager.Adapters.Firestore.{
  Firestore, FirestoreDoc, Write, set_doc, delete_doc, doc_id, sets, not_initialised, committed,
  set_many,
}
use baileys_session_manager.Adapters.Firestore.Ids.{IsSessionId, IsKey, doc_id-injective}
use baileys_session_manager.Adapters.Firestore.Keeps.{Keeps, written}

-- A batch leaves a document alone, or makes of it what does not depend on it.
written-cases :
    (ws : List Write) (i : Text)
    → ((old : Option FirestoreDoc) → written ws i old ≡ old)
      ⊎ ((new : Option FirestoreDoc) × ((old : Option FirestoreDoc) → written ws i old ≡ new))
written-cases [] i = inl (λ old. refl)
written-cases (set_doc j doc ∷ ws) i = elim (Bool-cases (text_eq j i)) [
  | inl same ↦ inr (written ws i (some doc), λ old. rw same refl)
  | inr other ↦ rw other (written-cases ws i)
]
written-cases (delete_doc j ∷ ws) i = elim (Bool-cases (text_eq j i)) [
  | inl same ↦ inr (written ws i none, λ old. rw same refl)
  | inr other ↦ rw other (written-cases ws i)
]

written_twice :
    (ws : List Write) (i : Text) (old : Option FirestoreDoc)
    → written ws i (written ws i old) ≡ written ws i old
written_twice ws i old = elim (written-cases ws i) [
  | inl same ↦ same (written ws i old)
  | inr (new, always) ↦ always (written ws i old) ∙ sym (always old)
]

-- What a write makes of a row: the new value, if there is one, with the time and version 1.
abbrev pub rewritten : Text → Text → ℕ → Option Text → Option FirestoreDoc → Option FirestoreDoc
rewritten sid key now none old = old
rewritten sid key now (some v) old =
    some (record { session_id = sid; key = key; value = v; updated_at = now; version = 1 })

abbrev doc_of : Text → Text → ℕ → Text → FirestoreDoc
doc_of sid key now v = record {
  session_id = sid;
  key = key;
  value = v;
  updated_at = now;
  version = 1;
}

text_eq-doc_id :
    (s k j : Text)
    → IsSessionId s
    → IsKey k
    → IsKey j
    → text_eq (doc_id s k) (doc_id s j) ≡ text_eq k j
text_eq-doc_id s k j ps pk pj = elim (Bool-cases (text_eq k j)) [
  | inl same ↦
      (text_eq_iff (doc_id s k) (doc_id s j)).1 (ap (doc_id s) ((text_eq_iff k j).0 same))
      ∙ sym same
  | inr other ↦ elim (Bool-cases (text_eq (doc_id s k) (doc_id s j))) [
    | inl ids ↦ absurd (
        ground (
          arith,
          other,
          (text_eq_iff k j).1
              (doc_id-injective s s k j ps ps pk pj
                ((text_eq_iff (doc_id s k) (doc_id s j)).0 ids)).1,
        ))
    | inr apart ↦ apart ∙ sym other
  ]
]

-- One call of `batch.set`, on the document of a row.
set_step :
    (sid key k v : Text) (now : ℕ) (w : Option Text) (old : Option FirestoreDoc)
    → IsSessionId sid
    → IsKey key
    → IsKey k
    → (if text_eq (doc_id sid k) (doc_id sid key)
        then some (doc_of sid k now v)
        else rewritten sid key now w old)
      ≡ rewritten sid key now (if text_eq k key then some v else w) old
set_step sid key k v now w old ps pk pe =
    ap (λ b. if b then some (doc_of sid k now v) else rewritten sid key now w old)
      (text_eq-doc_id sid k key ps pe pk)
    ∙ elim (Bool-cases (text_eq k key)) [
      | inl same ↦ rw same (ap (λ j. some (doc_of sid j now v)) ((text_eq_iff k key).0 same))
      | inr other ↦ rw other refl
    ]

if_false : {A : Type 0} (b : Bool) (x y : A) → b ≡ false → (if b then x else y) ≡ y
if_false b x y h = rw h refl

written-sets :
    (sid key : Text) (now : ℕ) (es : List Entry) (v : Option Text) (old : Option FirestoreDoc)
    → IsSessionId sid
    → IsKey key
    → All (λ e. IsKey e.key) es
    → written (sets sid now es) (doc_id sid key) (rewritten sid key now v old)
      ≡ rewritten sid key now (overwritten es key v) old
unfolding sets overwritten
written-sets sid key now [] v old ps pk pes = refl
written-sets sid key now (e ∷ es) v old ps pk (pe, pes) =
    ap (written (sets sid now es) (doc_id sid key))
      (set_step sid key e.key e.value now v old ps pk pe)
    ∙ written-sets sid key now es (if text_eq e.key key then some e.value else v) old ps pk pes

written-sets_other :
    (sid t key : Text) (now : ℕ) (es : List Entry) (old : Option FirestoreDoc)
    → IsSessionId sid
    → IsSessionId t
    → sid ≢ t
    → IsKey key
    → All (λ e. IsKey e.key) es
    → written (sets sid now es) (doc_id t key) old ≡ old
unfolding sets
written-sets_other sid t key now [] old ps pt ne pk pes = refl
written-sets_other sid t key now (e ∷ es) old ps pt ne pk (pe, pes) =
    elim (Bool-cases (text_eq (doc_id sid e.key) (doc_id t key))) [
      | inl same ↦ absurd (
          ne
            (doc_id-injective sid t e.key key ps pt pe pk
              ((text_eq_iff (doc_id sid e.key) (doc_id t key)).0 same)).0)
      | inr other ↦
          ap (written (sets sid now es) (doc_id t key)) (
            if_false (text_eq (doc_id sid e.key) (doc_id t key))
              (some (doc_of sid e.key now e.value)) old other)
          ∙ written-sets_other sid t key now es old ps pt ne pk pes
    ]

module _ {S : Type 0} (firestore : Firestore S) (stored : S → Text → Option FirestoreDoc)
    (keeps : Keeps firestore stored) (options : RetryOptions) where
  held-guard :
      (c : Opened S)
      → held stored (client not_initialised (pure {0, 0} {A = Unit {0}} tt) c).1 ≡ held stored c
  held-guard c = elim (client-cases not_initialised (pure {0, 0} {A = Unit {0}} tt) c) [
    | inl there ↦ rw there refl
    | inr missing ↦ rw missing refl
  ]

  -- A commit that returns, after any number of attempts, has been made.
  pub committed_lem :
      (ws : List Write) (c d : Opened S)
      → committed firestore options ws c ≡ (ok tt, d)
      → (i : Text) → held stored d i ≡ written ws i (held stored c i)
  unfolding committed
  committed_lem ws c d e i =
      let (_, s', first, rest) =
        bind-ok (client not_initialised (pure tt))
          (λ _. base_with_retry (slept firestore.sleep) options (on_app (firestore.commit ws))) c
          (ap (λ o. o.0) e) in
      retried_write stored firestore.sleep not_initialised (on_app (firestore.commit ws)) options
        (firestore.commit ws) (λ i. Unit {0}) (written ws) (written_twice ws) keeps.stored-sleep
        (λ c. inl refl) (keeps.commit_lem ws) s' d (sym rest ∙ e) i tt
      ∙ ap (λ f. written ws i (f i)) (ap (λ o. held stored o.1) (sym first) ∙ held-guard c)

  -- Over a Firestore that keeps to its documented behaviour, and may fail at any time: a `setMany`
  -- that returns, after any number of attempts, has given each of its keys its last value, the
  -- time of the call and version 1, whatever the version was, and has left the other keys and the
  -- other sessions as they were. The session ids have no underscore and no slash, and the keys
  -- have no slash.
  pub set_many_docs :
      (sid : Text) (es : List Entry) (c d : Opened S)
      → IsSessionId sid
      → All (λ e. IsKey e.key) es
      → set_many firestore options sid es c ≡ (ok tt, d)
      → ((key : Text)
          → IsKey key
          → held stored d (doc_id sid key)
            ≡ rewritten sid key
                (firestore.clock c.state)
                (overwritten es key none)
                (held stored c (doc_id sid key)))
        × ((t key : Text)
            → IsSessionId t
            → sid ≢ t
            → IsKey key
            → held stored d (doc_id t key) ≡ held stored c (doc_id t key))
  unfolding set_many overwritten
  set_many_docs sid [] c d ps pes e = (
    λ key pk. ap (λ o. held stored o.1 (doc_id sid key)) (sym e),
    λ t key pt ne pk. ap (λ o. held stored o.1 (doc_id t key)) (sym e),
  )
  set_many_docs sid (x ∷ es) c d ps pes e =
      let now = firestore.clock c.state in
      let made = committed_lem (sets sid now (x ∷ es)) c d e in
      (
        λ key pk.
            made (doc_id sid key)
            ∙ written-sets sid key now (x ∷ es) none (held stored c (doc_id sid key)) ps pk pes,
        λ t key pt ne pk.
            made (doc_id t key)
            ∙ written-sets_other sid t key now (x ∷ es) (held stored c (doc_id t key)) ps pt ne pk
                pes,
      )
