-- ===== src/Adapters/Realtime/Reads.antt =====
-- What the reads of firebase-realtime-adapter.ts return.
use baileys_session_manager.Base.{
  ◌≡◌, ◌≢◌, refl, ap, sym, ◌∙◌, Option, none, some, List, [], All, Text, if◌then◌else◌, arith,
}
use baileys_session_manager.Base.Exec.{Result, ok, error, pure, continue, bind-ok}
use baileys_session_manager.Base.Map.{Map, lookup}
use baileys_session_manager.Adapter.{SessionRecord, member}
use baileys_session_manager.Utils.Retry.{RetryOptions}
use baileys_session_manager.Adapters.Firebase.{Opened}
use baileys_session_manager.Adapters.Firebase.Steps
use baileys_session_manager.Adapters.Firebase.Steps.{held, held-retried}
use baileys_session_manager.Adapters.Firebase.Reads.{held-get_each, get_each_lem}
use baileys_session_manager.Adapters.Realtime.{
  StoredValue, Node, Database, path, row_of, not_initialised, retried, get, get_many,
}
use baileys_session_manager.Adapters.Realtime.Keeps.{Keeps, IsRow, stored_of, path-IsRow}

-- The row of a stored value.
abbrev pub as_record : Text → Text → Option StoredValue → Option SessionRecord
as_record sid key none = none
as_record sid key (some v) = some (record {
  session_id = sid;
  key = key;
  value = v.value;
  updated_at = v.updated_at;
  version = v.version;
})

row_of_lem :
    (sid key : Text) (snapshot : Option Node)
    → row_of sid key snapshot ≡ as_record sid key (stored_of snapshot)
unfolding row_of
row_of_lem sid key none = refl
row_of_lem sid key (some n) = refl

module _ {S : Type 0} (stored : S → Text → Option StoredValue) where
  -- The rows that callers see.
  abbrev pub visible : Opened S → Text → Text → Option SessionRecord
  visible c sid key = as_record sid key (held stored c (path sid key))

module _ {S : Type 0} (database : Database S) (stored : S → Text → Option StoredValue)
    (keeps : Keeps database stored) (options : RetryOptions) where
  pub retried_from :
      (p : Text) (c : Opened S) (snapshot : Option Node) (d : Opened S)
      → retried database options (database.once p) c ≡ (ok snapshot, d)
      → (s : S) × (stored s ≡ held stored c) × ((database.once p s).0 ≡ ok snapshot)
  unfolding retried
  retried_from p c snapshot d e =
      Steps.retried_from stored database.sleep not_initialised options (database.once p)
        keeps.stored-sleep (keeps.stored-once p) c snapshot d e

  retried_once :
      (p : Text) (c : Opened S) (snapshot : Option Node) (d : Opened S)
      → IsRow p
      → retried database options (database.once p) c ≡ (ok snapshot, d)
      → stored_of snapshot ≡ held stored c p
  retried_once p c snapshot d row e =
      let (s, same, read) = retried_from p c snapshot d e in
      keeps.once_lem p s snapshot row read ∙ ap (λ f. f p) same

  held-continue :
      {A B : Type 0} (f : A → B) (out : Result A × Opened S)
      → held stored (continue (λ a. pure (f a)) out).1 ≡ held stored out.1
  held-continue f (ok a, d) = refl
  held-continue f (error x, d) = refl

  pub held-get :
      (sid key : Text) (c : Opened S)
      → held stored (get database options sid key c).1 ≡ held stored c
  unfolding get retried
  held-get sid key c =
      held-continue (row_of sid key) (retried database options (database.once (path sid key)) c)
      ∙ held-retried stored database.sleep not_initialised options (database.once (path sid key))
          keeps.stored-sleep (keeps.stored-once (path sid key)) c

  pub get_lem :
      (sid key : Text) (c : Opened S) (r : Option SessionRecord) (d : Opened S)
      → sid ≢ []
      → key ≢ []
      → get database options sid key c ≡ (ok r, d)
      → r ≡ visible stored c sid key
  unfolding get
  get_lem sid key c r d ns nk e =
      let (snapshot, s', first, rest) =
        bind-ok (retried database options (database.once (path sid key)))
          (λ a. pure (row_of sid key a)) c (ap (λ o. o.0) e) in
      let returned : ok (row_of sid key snapshot) ≡ ok r = ap (λ o. o.0) (sym rest ∙ e) in
      let same : row_of sid key snapshot ≡ r = ground (arith, returned) in
      sym same
      ∙ row_of_lem sid key snapshot
      ∙ ap (as_record sid key)
          (retried_once (path sid key) c snapshot s' (path-IsRow sid key ns nk) first)

  pub held-get_many :
      (sid : Text) (ks : List Text) (c : Opened S)
      → held stored (get_many database options sid ks c).1 ≡ held stored c
  unfolding get_many
  held-get_many sid ks c =
      held-get_each (held stored) (λ h k. as_record sid k (h (path sid k))) (get database options)
        sid (λ k. (sid ≢ []) × (k ≢ [])) (held-get sid)
        (λ k c d r g e. get_lem sid k c r d g.0 g.1 e) ks [] c

  pub get_many_lem :
      (sid : Text) (ks : List Text) (found : Map SessionRecord) (c d : Opened S)
      → All (λ k. (sid ≢ []) × (k ≢ [])) ks
      → get_many database options sid ks c ≡ (ok found, d)
      → (key : Text) → lookup key found ≡ (if member key ks then visible stored c sid key else none)
  unfolding get_many
  get_many_lem sid ks found c d good e key =
      get_each_lem (held stored) (λ h k. as_record sid k (h (path sid k))) (get database options)
        sid (λ k. (sid ≢ []) × (k ≢ [])) (held-get sid)
        (λ k c d r g e. get_lem sid k c r d g.0 g.1 e) ks found c d good e key
