-- ===== src/Cache/Redis/Refinement.antt =====
-- What the cache manager relies on, for the cache over a Redis client in either mode.
use baileys_session_manager.Base.{
  ◌≡◌, ◌⊎◌, refl, ap, sym, ◌∙◌, inl, inr, Bool, Option, none, some, [], ◌∷◌, Text, arith,
}
use baileys_session_manager.Base.Exec.{Result, ok, error, Exec, continue, bind-ok}
use baileys_session_manager.Cache.Memory.{Versioned}
use baileys_session_manager.Cache.Redis.{Mode, Laws}
use baileys_session_manager.Cache.Redis.Client.{
  Json, Client, parsed, found, get_entry, set_entry, del_entry, expiry, IsJson, Keeps,
}

-- The entry of a stored text, if it is one.
abbrev pub from_result : Result (Option Versioned) → Option Versioned
from_result (ok v) = v
from_result (error e) = none

abbrev pub entry_of : Json → Option Text → Option Versioned
entry_of json raw = from_result (parsed json raw)

entry_of-stringify :
    (json : Json) → IsJson json → (v : Versioned) → entry_of json (some (json.stringify v)) ≡ some v
unfolding parsed
entry_of-stringify json is v = go (json.stringify v) refl
  where
    go : (t : Text) → json.stringify v ≡ t → entry_of json (some t) ≡ some v
    go [] e = absurd (is.stringify-ne-nil v e)
    go (u ∷ t) e = ap (λ x. from_result (found x)) (ap json.parse (sym e) ∙ is.parse-stringify v)

entry_of-none : (json : Json) → entry_of json none ≡ none
unfolding parsed
entry_of-none json = refl

-- An entry that is read is that of the text that was read.
parsed-some :
    (json : Json) (raw : Option Text) (v : Versioned)
    → parsed json raw ≡ ok (some v)
    → (t : Text) × (raw ≡ some t) × (entry_of json raw ≡ some v)
unfolding parsed
parsed-some json none v e = absurd (ground arith)
parsed-some json (some t) v e = (t, refl, ap from_result e)

module _ {R : Type 0} (json : Json) (is : IsJson json) (client : Client R)
    (texts : R → Text → Option Text) (keeps : Keeps client texts) where
  abbrev held : R → Text → Option Versioned
  held r k = entry_of json (texts r k)

  held-get : (k : Text) (r : R) → held (get_entry json client k r).1 ≡ held r
  unfolding get_entry
  held-get k r = go (client.get k r) (keeps.texts-get k r)
    where
      go :
          (out : Result (Option Text) × R)
          → texts out.1 ≡ texts r
          → held (continue {0, 0, 0} (λ raw s. (parsed json raw, s)) out).1 ≡ held r
      go (ok raw, s) e = ap (λ t k. entry_of json (t k)) e
      go (error x, s) e = ap (λ t k. entry_of json (t k)) e

  get_law :
      (k : Text) (r : R) (v : Versioned)
      → (get_entry json client k r).0 ≡ ok (some v)
      → held r k ≡ some v
  unfolding get_entry
  get_law k r v e =
      let (raw, s, first, rest) = bind-ok (client.get k) (λ raw s. (parsed json raw, s)) r e in
      let (t, there, entry) = parsed-some json raw v (ap (λ o. o.0) (sym rest) ∙ e) in
      ap (entry_of json) (keeps.get_lem k r t (ap (λ o. o.0) first ∙ ap ok there) ∙ sym there)
      ∙ entry

  stored_text :
      (payload : Text) (raw : Option Text) (before : Option Text) (v : Versioned)
      → ((t : Text) → raw ≡ some t → (t ≡ payload) ⊎ (before ≡ some t))
      → entry_of json raw ≡ some v
      → (entry_of json (some payload) ≡ some v) ⊎ (entry_of json before ≡ some v)
  unfolding parsed
  stored_text payload none before v h e = absurd (ground arith)
  stored_text payload (some t) before v h e = elim (h t refl) [
    | inl same ↦ inl (ap (λ x. entry_of json (some x)) (sym same) ∙ e)
    | inr old ↦ inr (ap (entry_of json) old ∙ e)
  ]

  payload_written :
      (payload v : Versioned) → entry_of json (some (json.stringify payload)) ≡ some v → v ≡ payload
  payload_written payload v e =
      let same : some payload ≡ some v = sym (entry_of-stringify json is payload) ∙ e in
      let equal : payload ≡ v = ground (arith, same) in sym equal

  -- `publish` changes nothing that is stored.
  pub client-Laws :
      (mode : Mode) (publish : Option (Text → Exec R (Unit {0}))) (close : Exec R (Unit {0}))
      (delivered : Text → R → Bool)
      → ((p : Text → Exec R (Unit {0})) (k : Text) (r : R)
          → publish ≡ some p
          → texts (p k r).1 ≡ texts r)
      → Laws
          (record {
            mode = mode;
            get = get_entry json client;
            set = λ key value version. set_entry json client key value version none;
            del = del_entry json client;
            publish_invalidation = publish;
            delivered = delivered;
            close = close;
          })
          held
  unfolding set_entry del_entry expiry
  client-Laws mode publish close delivered published = record {
    held-get = held-get;
    get_lem = get_law;
    set_lem = λ k value version r e.
        ap (entry_of json) (keeps.set_lem k _ none r e)
        ∙ entry_of-stringify json is (record { value = value; version = version });
    set_other = λ k value version r j ne. ap (entry_of json) (keeps.set_other k _ none r j ne);
    set_failed = λ k value version r v e.
        let payload : Versioned = record { value = value; version = version } in
        elim (stored_text (json.stringify payload) _ (texts r k) v
          (λ t h. keeps.set_failed k _ none r t h) e) [
            | inl new ↦ inl (payload_written payload v new)
            | inr old ↦ inr old
          ];
    del_lem = λ k r e. ap (entry_of json) (keeps.del_lem k r e) ∙ entry_of-none json;
    del_other = λ k r j ne. ap (entry_of json) (keeps.del_other k r j ne);
    held-publish = λ p k r e. ap (λ t k. entry_of json (t k)) (published p k r e);
  }
