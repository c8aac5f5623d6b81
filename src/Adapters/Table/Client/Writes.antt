-- ===== src/Adapters/Table/Client/Writes.antt =====
-- What the writes of rows by key leave, which the adapters of a table have in common.
use baileys_session_manager.Base.{
  ℕ, ◌≡◌, some, text_eq, refl, ap, sym, ◌∙◌, Bool, true, false, not, Option, none, List, [], ◌∷◌,
  keep, Text, arith, if◌then◌else◌,
}
use baileys_session_manager.Base.Exec.{Result, ok, error, Exec, continue, pure}
use baileys_session_manager.Adapter.{Entry, member, value_of, overwritten}
use baileys_session_manager.Utils.Retry.{RetryOptions}
use baileys_session_manager.Adapters.Base.{base_with_retry}
use baileys_session_manager.Adapters.Table.{Row, is_in, select, upsert_all, to_optional}
use baileys_session_manager.Adapters.Table.Rows.{value_of-to_optional, keep-not-is_in-none}
use baileys_session_manager.Adapters.Table.Partial.{
  Writing, refl-Writing, value_in-upsert_all, all-Writing, Removing, refl-Removing, keep-Removing,
  select-removed,
}
use baileys_session_manager.Adapters.Table.Requests.{Request, Answer, answer, Serves}
use baileys_session_manager.Adapters.Table.Client.{request, set_many, delete_many, set}
use baileys_session_manager.Adapters.Table.Client.Steps.{
  Done, Done-map, upsert_rows-Done, delete_in-Done, delete_one-Done,
}
use baileys_session_manager.Adapters.Table.Client.Reads.{visible}

chosen :
    (b : Bool) (r : Option Row)
    → to_optional (if b then none else r) ≡ (if b then none else to_optional r)
unfolding to_optional
chosen true r = refl
chosen false r = refl

module _ {C : Type 0} (attempt : Request → Exec C Answer) (sleep : ℕ → C → C) (clock : C → ℕ)
    (options : RetryOptions) (table : C → List Row) (serves : Serves attempt sleep table) where
  set_many-Writes :
      (sid : Text) (es : List Entry) (c : C)
      → (now : ℕ) × Done
          (Writing sid es (table c))
          (λ _. tt {0})
          (upsert_all sid es now)
          (set_many attempt sleep clock options sid es c).0
          (table (set_many attempt sleep clock options sid es c).1)
  unfolding set_many request upsert_all
  set_many-Writes sid [] c = (0, (table c, refl-Writing sid [] (table c), refl, refl))
  set_many-Writes sid (e ∷ es) c =
      let q = Request.upsert_rows sid (e ∷ es) (clock c) in
      (
        clock c,
        Done-map table (Writing sid (e ∷ es) (table c)) (answer q)
            (upsert_all sid (e ∷ es) (clock c)) (λ _. tt {0})
            (base_with_retry sleep options (attempt q) c)
            (upsert_rows-Done attempt sleep table serves options sid (e ∷ es) (clock c) c),
      )

  delete_many-Writes :
      (sid : Text) (ks : List Text) (c : C)
      → Done
          (Removing sid ks (table c))
          (λ _. tt {0})
          (keep (λ r. not (is_in sid ks r)))
          (delete_many attempt sleep clock options sid ks c).0
          (table (delete_many attempt sleep clock options sid ks c).1)
  unfolding delete_many request
  delete_many-Writes sid [] c =
      (table c, refl-Removing sid [] (table c), refl, sym (keep-not-is_in-none sid (table c)))
  delete_many-Writes sid (k ∷ ks) c =
      let q = Request.delete_in sid (k ∷ ks) in
      Done-map table (Removing sid (k ∷ ks) (table c)) (answer q)
        (keep (λ r. not (is_in sid (k ∷ ks) r))) (λ _. tt {0})
        (base_with_retry sleep options (attempt q) c)
        (delete_in-Done attempt sleep table serves options sid (k ∷ ks) c)

  -- What a write leaves, if it returns, and in any case.
  pub Done-ok :
      (P : List Row → Type 0) (g : List Row → List Row) (out : Result (Unit {0}) × C)
      → Done P (λ _. tt {0}) g out.0 (table out.1)
      → out.0 ≡ ok tt
      → (u : List Row) × P u × (table out.1 ≡ g u)
  Done-ok P g (ok tt, d) (u, p, e, left) h = (u, p, left)
  Done-ok P g (error x, d) p h = absurd (ground arith)

  pub Done-always :
      (P : List Row → Type 0) (g : List Row → List Row) (out : Result (Unit {0}) × C)
      → ((u : List Row) → P u → P (g u))
      → Done P (λ _. tt {0}) g out.0 (table out.1)
      → P (table out.1)
  Done-always P g (ok tt, d) more (u, p, e, left) = rw left (more u p)
  Done-always P g (error x, d) more p = p

  pub set_many-Writing :
      (sid : Text) (es : List Entry) (c : C)
      → Writing sid es (table c) (table (set_many attempt sleep clock options sid es c).1)
  set_many-Writing sid es c =
      let (now, wrote) = set_many-Writes sid es c in
      Done-always (Writing sid es (table c)) (upsert_all sid es now)
        (set_many attempt sleep clock options sid es c)
        (λ u w. all-Writing sid es now (table c) u w) wrote

  pub delete_many-Removing :
      (sid : Text) (ks : List Text) (c : C)
      → Removing sid ks (table c) (table (delete_many attempt sleep clock options sid ks c).1)
  delete_many-Removing sid ks c =
      Done-always (Removing sid ks (table c)) (keep (λ r. not (is_in sid ks r)))
        (delete_many attempt sleep clock options sid ks c)
        (λ u w. keep-Removing sid ks ks (table c) u (λ k h. h) w) (delete_many-Writes sid ks c)

  pub set_many_law :
      (sid : Text) (es : List Entry) (c : C)
      → (set_many attempt sleep clock options sid es c).0 ≡ ok tt
      → (key : Text)
      → value_of (visible table (set_many attempt sleep clock options sid es c).1 sid key)
        ≡ overwritten es key (value_of (visible table c sid key))
  set_many_law sid es c h key =
      let (now, wrote) = set_many-Writes sid es c in
      let (u, w, left) =
        Done-ok (Writing sid es (table c)) (upsert_all sid es now)
          (set_many attempt sleep clock options sid es c) wrote h in
      ap (λ l. value_of (to_optional (select sid key l))) left
      ∙ value_of-to_optional (select sid key (upsert_all sid es now u))
      ∙ value_in-upsert_all sid es now (table c) u key w
      ∙ ap (overwritten es key) (sym (value_of-to_optional (select sid key (table c))))

  pub delete_many_law :
      (sid : Text) (ks : List Text) (c : C)
      → (delete_many attempt sleep clock options sid ks c).0 ≡ ok tt
      → (key : Text)
      → visible table (delete_many attempt sleep clock options sid ks c).1 sid key
        ≡ (if member key ks then none else visible table c sid key)
  delete_many_law sid ks c h key =
      let (u, w, left) =
        Done-ok (Removing sid ks (table c)) (keep (λ r. not (is_in sid ks r)))
          (delete_many attempt sleep clock options sid ks c) (delete_many-Writes sid ks c) h in
      ap (λ l. to_optional (select sid key l)) left
      ∙ ap to_optional (select-removed sid ks (table c) u key w)
      ∙ chosen (member key ks) (select sid key (table c))

  pub set_law :
      (sid key value : Text) (c : C)
      → (set attempt sleep clock options sid key value c).0 ≡ ok tt
      → (key' : Text)
      → value_of (visible table (set attempt sleep clock options sid key value c).1 sid key')
        ≡ (if text_eq key key' then some value else value_of (visible table c sid key'))
  unfolding set overwritten
  set_law sid key value c h key' =
      set_many_law sid (record { key = key; value = value } ∷ []) c h key'

  pub set-Writing :
      (sid key value : Text) (c : C)
      → Writing sid
          (record { key = key; value = value } ∷ [])
          (table c)
          (table (set attempt sleep clock options sid key value c).1)
  unfolding set
  set-Writing sid key value c = set_many-Writing sid (record { key = key; value = value } ∷ []) c

  -- A deletion of one key, as a call of `deleteMany` or of `deleteOne`.
  abbrev pub Deletes : (Text → Text → Exec C (Unit {0})) → Type 0
  Deletes delete' =
      (sid key : Text) (c : C)
      → Done (Removing sid (key ∷ []) (table c)) (λ _. tt {0})
          (keep (λ r. not (is_in sid (key ∷ []) r))) (delete' sid key c).0
          (table (delete' sid key c).1)

  pub delete-Deletes : Deletes (λ sid key. delete_many attempt sleep clock options sid (key ∷ []))
  delete-Deletes sid key c = delete_many-Writes sid (key ∷ []) c

  pub delete_one-Deletes : Deletes (λ sid key c.
      continue {0, 0, 0}
        (λ (_ : Answer). pure {A = Unit {0}} (tt {0}))
        (request attempt sleep clock options (Request.delete_one sid key) c))
  unfolding request
  delete_one-Deletes sid key c =
      let q = Request.delete_one sid key in
      Done-map table (Removing sid (key ∷ []) (table c)) (answer q)
        (keep (λ r. not (is_in sid (key ∷ []) r))) (λ _. tt {0})
        (base_with_retry sleep options (attempt q) c)
        (delete_one-Done attempt sleep table serves options sid key c)

  module _ (delete' : Text → Text → Exec C (Unit {0})) (deletes : Deletes delete') where
    pub delete_law :
        (sid key : Text) (c : C)
        → (delete' sid key c).0 ≡ ok tt
        → (key' : Text)
        → visible table (delete' sid key c).1 sid key'
          ≡ (if text_eq key key' then none else visible table c sid key')
    unfolding member to_optional
    delete_law sid key c h key' =
        let (u, w, left) =
          Done-ok (Removing sid (key ∷ []) (table c)) (keep (λ r. not (is_in sid (key ∷ []) r)))
            (delete' sid key c) (deletes sid key c) h in
        ap (λ l. to_optional (select sid key' l)) left
        ∙ ground (arith, select-removed sid (key ∷ []) (table c) u key' w)

    pub delete-Removing :
        (sid key : Text) (c : C) → Removing sid (key ∷ []) (table c) (table (delete' sid key c).1)
    delete-Removing sid key c =
        Done-always (Removing sid (key ∷ []) (table c)) (keep (λ r. not (is_in sid (key ∷ []) r)))
          (delete' sid key c)
          (λ u w. keep-Removing sid (key ∷ []) (key ∷ []) (table c) u (λ k h. h) w)
          (deletes sid key c)
