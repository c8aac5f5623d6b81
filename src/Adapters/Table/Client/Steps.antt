-- ===== src/Adapters/Table/Client/Steps.antt =====
-- What requests that are made again and again do to the table.
use baileys_session_manager.Base.{
  ℕ, ◌≡◌, refl, ap, sym, subst, ◌∙◌, inl, inr, not, List, [], ◌∷◌, ◌++◌, keep, Text, text_eq, arith,
}
use baileys_session_manager.Base.Exec.{Result, ok, error, Exec, continue, pure}
use baileys_session_manager.Adapter.{Entry}
use baileys_session_manager.Utils.Retry.{RetryOptions}
use baileys_session_manager.Utils.Retry.Effects.{Ended, with_retry-Ended}
use baileys_session_manager.Adapters.Base.{base_with_retry}
use baileys_session_manager.Adapters.Table.{Row, is_in, upsert_all}
use baileys_session_manager.Adapters.Table.Partial.{
  Writing, refl-Writing, upsert_all-Writing, Removing, refl-Removing, keep-Removing,
}
use baileys_session_manager.Adapters.Table.Sessions.{Clearing, refl-Clearing, keep-Clearing}
use baileys_session_manager.Adapters.Table.Requests.{
  Request, Answer, answer, effect, Partly, Serves,
}

-- How a call ends that has tried a request on tables with a property.
abbrev pub Done :
    {A : Type 0}
    → (List Row → Type 0)
    → (List Row → A)
    → (List Row → List Row)
    → Result A
    → List Row
    → Type 0
Done P f g (ok a) t = (u : List Row) × P u × (a ≡ f u) × (t ≡ g u)
Done P f g (error e) t = P t

pub Done-map :
    {A B : Type 0} {C : Type 0} (table : C → List Row) (P : List Row → Type 0) (f : List Row → A)
    (g : List Row → List Row) (h : A → B) (out : Result A × C)
    → Done P f g out.0 (table out.1)
    → Done P
        (λ l. h (f l))
        g
        (continue {0, 0, 0} (λ a. pure (h a)) out).0
        (table (continue {0, 0, 0} (λ a. pure (h a)) out).1)
Done-map table P f g h (ok a, c) (u, p, e, q) = (u, p, ap h e, q)
Done-map table P f g h (error x, c) p = p

module _ {C : Type 0} (attempt : Request → Exec C Answer) (sleep : ℕ → C → C) (table : C → List Row)
    (serves : Serves attempt sleep table) (options : RetryOptions) where
  module _ (q : Request) (P : List Row → Type 0)
      (partly : (t u : List Row) → P t → Partly q t u → P u) where
    slept : (ms : ℕ) (c : C) → P (table c) → P (table (sleep ms c))
    slept ms c p = rw (serves.table-sleep ms c) p

    kept : (c : C) (e : Text) → (attempt q c).0 ≡ error e → P (table c) → P (table (attempt q c).1)
    kept c e h p = elim (serves.send_lem q c) [
      | inl (fine, _) ↦ absurd (ground (arith, fine, h))
      | inr (_, part) ↦ partly _ _ p part
    ]

    finish :
        (r : Result Answer) (c : C)
        → Ended sleep (attempt q) (λ c. P (table c)) slept kept r c
        → Done P (answer q) (effect q) r (table c)
    finish (error e) c p = p
    finish (ok a) c (c', p, done) = elim (serves.send_lem q c') [
      | inl (fine, left) ↦ (
        table c',
        p,
        ground (arith, ap (λ o. o.0) done, fine),
        ap (λ o. table o.1) (sym done) ∙ left,
      )
      | inr ((e, failed), _) ↦ absurd (ground (arith, ap (λ o. o.0) done, failed))
    ]

    pub request-Done :
        (c : C)
        → P (table c)
        → Done P
            (answer q)
            (effect q)
            (base_with_retry sleep options (attempt q) c).0
            (table (base_with_retry sleep options (attempt q) c).1)
    unfolding base_with_retry
    request-Done c p =
        finish _ _ (with_retry-Ended sleep (attempt q) (λ c. P (table c)) slept kept options c p)

  -- A request that reads.
  pub read-Done :
      (q : Request)
      → ((t u : List Row) → Partly q t u → u ≡ t)
      → (c : C)
      → Done
          (λ u. u ≡ table c)
          (answer q)
          (effect q)
          (base_with_retry sleep options (attempt q) c).0
          (table (base_with_retry sleep options (attempt q) c).1)
  read-Done q same c = request-Done q (λ u. u ≡ table c) (λ t u p part. same t u part ∙ p) c refl

  pub upsert_rows-Done :
      (sid : Text) (es : List Entry) (now : ℕ) (c : C)
      → Done
          (Writing sid es (table c))
          (answer (Request.upsert_rows sid es now))
          (upsert_all sid es now)
          (base_with_retry sleep options (attempt (Request.upsert_rows sid es now)) c).0
          (table (base_with_retry sleep options (attempt (Request.upsert_rows sid es now)) c).1)
  upsert_rows-Done sid es now c =
      request-Done (Request.upsert_rows sid es now) (Writing sid es (table c))
        (λ t u w (first, rest, e, left). rw left (wrote first rest t e w)) c
        (refl-Writing sid es (table c))
    where
      wrote :
          (first rest : List Entry) (t : List Row)
          → es ≡ first ++ rest
          → Writing sid es (table c) t
          → Writing sid es (table c) (upsert_all sid first now t)
      wrote first rest t e w =
          subst (λ l. Writing sid l (table c) (upsert_all sid first now t)) (sym e)
            (upsert_all-Writing sid first rest now (table c) t
              (subst (λ l. Writing sid l (table c) t) e w))

  -- `deleteOne`
  pub delete_one-Done :
      (sid key : Text) (c : C)
      → Done
          (Removing sid (key ∷ []) (table c))
          (answer (Request.delete_one sid key))
          (keep (λ r. not (is_in sid (key ∷ []) r)))
          (base_with_retry sleep options (attempt (Request.delete_one sid key)) c).0
          (table (base_with_retry sleep options (attempt (Request.delete_one sid key)) c).1)
  delete_one-Done sid key c =
      request-Done (Request.delete_one sid key) (Removing sid (key ∷ []) (table c))
        (λ t u w (some_keys, sub, left).
          rw left (keep-Removing sid (key ∷ []) some_keys (table c) t sub w))
        c (refl-Removing sid (key ∷ []) (table c))

  pub delete_session-Done :
      (sid : Text) (c : C)
      → Done
          (Clearing sid (table c))
          (answer (Request.delete_session sid))
          (keep (λ r. not (text_eq r.session_id sid)))
          (base_with_retry sleep options (attempt (Request.delete_session sid)) c).0
          (table (base_with_retry sleep options (attempt (Request.delete_session sid)) c).1)
  delete_session-Done sid c =
      request-Done (Request.delete_session sid) (Clearing sid (table c))
        (λ t u w (test, spares, left). rw left (keep-Clearing sid test (table c) t spares w)) c
        (refl-Clearing sid (table c))

  pub delete_in-Done :
      (sid : Text) (ks : List Text) (c : C)
      → Done
          (Removing sid ks (table c))
          (answer (Request.delete_in sid ks))
          (keep (λ r. not (is_in sid ks r)))
          (base_with_retry sleep options (attempt (Request.delete_in sid ks)) c).0
          (table (base_with_retry sleep options (attempt (Request.delete_in sid ks)) c).1)
  delete_in-Done sid ks c =
      request-Done (Request.delete_in sid ks) (Removing sid ks (table c))
        (λ t u w (some_keys, sub, left). rw left (keep-Removing sid ks some_keys (table c) t sub w))
        c (refl-Removing sid ks (table c))
