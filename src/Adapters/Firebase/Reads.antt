-- ===== src/Adapters/Firebase/Reads.antt =====
-- What `getMany` of firebase-realtime-adapter.ts and firestore-adapter.ts returns, if `get`
-- returns the rows as they are.
use baileys_session_manager.Base.{
  ◌≡◌, ◌⊎◌, refl, ap, sym, ◌∙◌, inl, inr, Bool-cases, Bool, true, false, Option, none, some, List,
  [], ◌∷◌, All, Text, text_eq, text_eq_iff, if◌then◌else◌, arith,
}
use baileys_session_manager.Base.Exec.{Result, ok, error, Exec, continue, bind-ok}
use baileys_session_manager.Base.Map.{Map, lookup, lookup-insert}
use baileys_session_manager.Adapter.{SessionRecord, member}
use baileys_session_manager.Adapters.Firebase.{add, get_each}

still_known :
    (view : Text → Option SessionRecord) (k j : Text) (acc : Map SessionRecord)
    {x : Option SessionRecord}
    → (lookup j acc ≡ none) ⊎ (lookup j acc ≡ view j)
    → x ≡ (if text_eq k j then view k else lookup j acc)
    → (x ≡ none) ⊎ (x ≡ view j)
still_known view k j acc h e = elim (Bool-cases (text_eq k j)) [
  | inl same ↦ inr (rw same at e ∙ ap view ((text_eq_iff k j).0 same))
  | inr other ↦ rw (rw other at e) h
]

regroup :
    (view : Text → Option SessionRecord) (k key : Text) (b : Bool) (r : Option SessionRecord)
    → (if b then view key else (if text_eq k key then view k else r))
      ≡ (if (if text_eq k key then true else b) then view key else r)
regroup view k key true r = elim (Bool-cases (text_eq k key)) [
  | inl same ↦ rw same refl
  | inr other ↦ rw other refl
]
regroup view k key false r = elim (Bool-cases (text_eq k key)) [
  | inl same ↦ rw same (ap view ((text_eq_iff k key).0 same))
  | inr other ↦ rw other refl
]

lookup-add :
    (k key : Text) (r : Option SessionRecord) (found : Map SessionRecord)
    → (lookup k found ≡ none) ⊎ (lookup k found ≡ r)
    → lookup key (add k r found) ≡ (if text_eq k key then r else lookup key found)
unfolding add
lookup-add k key none found h = ground (arith, text_eq_iff k key)
lookup-add k key (some r) found h = lookup-insert k key r found

-- `held` is what the reads do not change, `IsGood` tells of which keys they return the row.
module _ {C X : Type 0} (held : C → X) (view : X → Text → Option SessionRecord)
    (get : Text → Text → Exec C (Option SessionRecord)) (sid : Text) (IsGood : Text → Type 0)
    (held-get : (k : Text) (c : C) → held (get sid k c).1 ≡ held c)
    (get_lem : (k : Text) (c d : C) (r : Option SessionRecord)
      → IsGood k
      → get sid k c ≡ (ok r, d)
      → r ≡ view (held c) k) where
  pub held-get_each :
      (ks : List Text) (found : Map SessionRecord) (c : C)
      → held (get_each get sid ks found c).1 ≡ held c
  unfolding get_each
  held-get_each [] found c = refl
  held-get_each (k ∷ ks) found c =
      go (λ a. held-get_each ks (add k a found)) (get sid k c).0 (get sid k c).1 (held-get k c)
    where
      go :
          ((a : Option SessionRecord) (d : C)
            → held (get_each get sid ks (add k a found) d).1 ≡ held d)
          → (r : Result (Option SessionRecord)) (d : C) → held d ≡ held c
          → held (continue (λ r. get_each get sid ks (add k r found)) (r, d)).1 ≡ held c
      go rest (ok a) d same = rest a d ∙ same
      go rest (error x) d same = same

  go_on :
      (x : X) (ks : List Text) (acc found : Map SessionRecord) (c d : C)
      → All IsGood ks
      → held c ≡ x
      → ((key : Text) → (lookup key acc ≡ none) ⊎ (lookup key acc ≡ view x key))
      → get_each get sid ks acc c ≡ (ok found, d)
      → (key : Text) → lookup key found ≡ (if member key ks then view x key else lookup key acc)
  unfolding get_each member
  go_on x [] acc found c d good same known e key = ground (arith, ap (λ o. o.0) e)
  go_on x (k ∷ ks) acc found c d (g, good) same known e key =
      let (r, s', first, rest) =
        bind-ok (get sid k) (λ r. get_each get sid ks (add k r acc)) c (ap (λ o. o.0) e) in
      let row : r ≡ view x k = get_lem k c s' r g first ∙ ap (λ h. view h k) same in
      let added : (j : Text)
          → lookup j (add k r acc) ≡ (if text_eq k j then view x k else lookup j acc) =
        λ j.
          lookup-add k j r acc (rw row (known k))
          ∙ ap (λ y. if text_eq k j then y else lookup j acc) row in
      let held' : held s' ≡ x = ap (λ o. held o.1) (sym first) ∙ held-get k c ∙ same in
      go_on x ks (add k r acc) found s' d good held'
        (λ j. still_known (view x) k j acc (known j) (added j)) (sym rest ∙ e) key
      ∙ ap (λ y. if member key ks then view x key else y) (added key)
      ∙ regroup (view x) k key (member key ks) (lookup key acc)

  -- Every key that is asked for has its row, and no other key has one.
  pub get_each_lem :
      (ks : List Text) (found : Map SessionRecord) (c d : C)
      → All IsGood ks
      → get_each get sid ks [] c ≡ (ok found, d)
      → (key : Text) → lookup key found ≡ (if member key ks then view (held c) key else none)
  unfolding lookup
  get_each_lem ks found c d good e key =
      go_on (held c) ks [] found c d good refl (λ k. inl refl) e key
