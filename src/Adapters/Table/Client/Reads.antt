-- ===== src/Adapters/Table/Client/Reads.antt =====
-- What the reads that the adapters of a table have in common return.
use baileys_session_manager.Base.{
  ℕ, ◌≡◌, refl, ap, sym, ◌∙◌, ◌⊎◌, inl, inr, Option, List, [], ◌∷◌, map, keep, Text, text_eq, arith,
}
use baileys_session_manager.Base.Exec.{Result, ok, error, Exec, continue, pure}
use baileys_session_manager.Adapter.{SessionRecord, Failed}
use baileys_session_manager.Utils.Retry.{RetryOptions}
use baileys_session_manager.Adapters.Base.{base_with_retry}
use baileys_session_manager.Adapters.Table.{
  Row, is_row, is_in, select, to_optional, collect, distinct_sessions, nonempty,
}
use baileys_session_manager.Adapters.Table.Sessions.{has_session, of_session}
use baileys_session_manager.Adapters.Table.Rows.{Unique, keep-is_in-none}
use baileys_session_manager.Adapters.Table.Requests.{Request, Answer, answer, Serves, first_only}
use baileys_session_manager.Adapters.Table.Client.{
  rows_of, first_of, request, get, get_many, get_all_keys, list_sessions, session_exists, names_of,
  is_nonempty,
}
use baileys_session_manager.Adapters.Table.Client.Steps.{Done, Done-map, read-Done}

first_of-keep :
    (sid key : Text) (l : List Row)
    → first_of (first_only (keep (is_row sid key) l)) ≡ select sid key l
unfolding first_of keep select
first_of-keep sid key [] = refl
first_of-keep sid key (r ∷ l) = ground (arith, first_of-keep sid key l)

is_nonempty-first_only : (l : List Row) → is_nonempty (first_only l) ≡ nonempty l
unfolding is_nonempty nonempty
is_nonempty-first_only [] = refl
is_nonempty-first_only (r ∷ l) = refl

Done-answer :
    {A : Type 0} (P : List Row → Type 0) {f f' : List Row → A} (g : List Row → List Row)
    (r : Result A) (t : List Row)
    → ((u : List Row) → f u ≡ f' u)
    → Done P f g r t
    → Done P f' g r t
Done-answer P g (ok a) t same (u, p, e, left) = (u, p, e ∙ same u, left)
Done-answer P g (error x) t same p = p

abbrev pub keys_of : Text → List Row → List Text
keys_of sid l = map (λ r. r.key) (keep (λ r. text_eq r.session_id sid) l)

-- What callers see of the table in a state, and that it has no key twice.
module _ {C : Type 0} (table : C → List Row) where
  abbrev pub visible : C → Text → Text → Option SessionRecord
  visible c sid key = to_optional (select sid key (table c))

  abbrev pub IsKeyed : C → Type 0
  IsKeyed c = Unique (table c)

  abbrev pub Reads : {A : Type 0} → (List Row → A) → C → Result A × C → Type 0
  Reads f c out = Done (λ u. u ≡ table c) f (λ t. t) out.0 (table out.1)

  Reads-table :
      {A : Type 0} (f : List Row → A) (c : C) (out : Result A × C)
      → Reads f c out
      → table out.1 ≡ table c
  Reads-table f c (ok a, d) (u, p, e, left) = left ∙ p
  Reads-table f c (error x, d) p = p

  pub Reads-visible :
      {A : Type 0} (f : List Row → A) (c : C) (out : Result A × C)
      → Reads f c out
      → visible out.1 ≡ visible c
  Reads-visible f c (ok a, d) (u, p, e, left) =
      ap (λ l sid key. to_optional (select sid key l)) (left ∙ p)
  Reads-visible f c (error x, d) p = ap (λ l sid key. to_optional (select sid key l)) p

  pub Reads-IsKeyed :
      {A : Type 0} (f : List Row → A) (c : C) (out : Result A × C)
      → Reads f c out
      → IsKeyed c
      → IsKeyed out.1
  Reads-IsKeyed f c (ok a, d) (u, p, e, left) h = rw (left ∙ p) h
  Reads-IsKeyed f c (error x, d) p h = rw p h

  pub Reads-answer :
      {A : Type 0} (f : List Row → A) (c : C) (out : Result A × C)
      → Reads f c out
      → (out.0 ≡ ok (f (table c))) ⊎ Failed out
  Reads-answer f c (ok a, d) (u, p, e, left) = inl (ap ok (e ∙ ap f p))
  Reads-answer f c (error x, d) p = inr (x, refl)

  pub Reads-ok :
      {A : Type 0} (f : List Row → A) (c : C) (out : Result A × C) (a : A)
      → Reads f c out
      → out.0 ≡ ok a
      → a ≡ f (table c)
  Reads-ok f c (ok b, d) a (u, p, e, left) h = ground (arith, e ∙ ap f p)
  Reads-ok f c (error x, d) a p h = absurd (ground arith)

module _ {C : Type 0} (attempt : Request → Exec C Answer) (sleep : ℕ → C → C) (clock : C → ℕ)
    (options : RetryOptions) (table : C → List Row) (serves : Serves attempt sleep table) where
  pub get-Reads :
      (sid key : Text) (c : C)
      → Reads table
          (λ l. to_optional (select sid key l))
          c
          (get attempt sleep clock options sid key c)
  unfolding get request rows_of
  get-Reads sid key c =
      let q = Request.select_one sid key in
      let out = base_with_retry sleep options (attempt q) c in
      Done-answer (λ u. u ≡ table c) (λ t. t) _ _ (λ u. ap to_optional (first_of-keep sid key u))
        (Done-map table (λ u. u ≡ table c) (answer q) (λ t. t)
          (λ a. to_optional (first_of (rows_of a))) out
          (read-Done attempt sleep table serves options q (λ t u e. e) c))

  pub get_many-Reads :
      (sid : Text) (ks : List Text) (c : C)
      → Reads table
          (λ l. collect (keep (is_in sid ks) l) [])
          c
          (get_many attempt sleep clock options sid ks c)
  unfolding get_many request rows_of collect
  get_many-Reads sid [] c =
      (table c, refl, ap (λ l. collect l []) (sym (keep-is_in-none sid (table c))), refl)
  get_many-Reads sid (k ∷ ks) c =
      Done-map table (λ u. u ≡ table c) (answer (Request.select_in sid (k ∷ ks))) (λ t. t)
        (λ a. collect (rows_of a) [])
        (base_with_retry sleep options (attempt (Request.select_in sid (k ∷ ks))) c)
        (read-Done attempt sleep table serves options (Request.select_in sid (k ∷ ks)) (λ t u e. e)
          c)

  pub get_all_keys-Reads :
      (sid : Text) (c : C)
      → Reads table (keys_of sid) c (get_all_keys attempt sleep clock options sid c)
  unfolding get_all_keys request rows_of
  get_all_keys-Reads sid c =
      Done-map table (λ u. u ≡ table c) (answer (Request.select_session sid)) (λ t. t)
        (λ a. map (λ r. r.key) (rows_of a))
        (base_with_retry sleep options (attempt (Request.select_session sid)) c)
        (read-Done attempt sleep table serves options (Request.select_session sid) (λ t u e. e) c)

  pub list_sessions-Reads :
      (c : C) → Reads table (distinct_sessions []) c (list_sessions attempt sleep clock options c)
  unfolding list_sessions request names_of
  list_sessions-Reads c =
      Done-map table (λ u. u ≡ table c) (answer Request.select_sessions) (λ t. t) names_of
        (base_with_retry sleep options (attempt Request.select_sessions) c)
        (read-Done attempt sleep table serves options Request.select_sessions (λ t u e. e) c)

  pub session_exists-Reads :
      (sid : Text) (c : C)
      → Reads table (has_session sid) c (session_exists attempt sleep clock options sid c)
  unfolding session_exists request rows_of
  session_exists-Reads sid c =
      let q = Request.select_any sid in
      let out = base_with_retry sleep options (attempt q) c in
      Done-answer (λ u. u ≡ table c) (λ t. t) _ _
        (λ u. is_nonempty-first_only (keep (of_session sid) u))
        (Done-map table (λ u. u ≡ table c) (answer q) (λ t. t) (λ a. is_nonempty (rows_of a)) out
          (read-Done attempt sleep table serves options q (λ t u e. e) c))

  -- `CREATE TABLE IF NOT EXISTS`
  pub create_table-Reads :
      (c : C)
      → Reads table
          (λ l. tt {0})
          c
          (continue {0, 0, 0}
            (λ (_ : Answer). pure {A = Unit {0}} (tt {0}))
            (request attempt sleep clock options Request.create_table c))
  unfolding request
  create_table-Reads c =
      Done-map table (λ u. u ≡ table c) (answer Request.create_table) (λ t. t) (λ a. tt {0})
        (base_with_retry sleep options (attempt Request.create_table) c)
        (read-Done attempt sleep table serves options Request.create_table (λ t u e. e) c)

  pub create_table-table :
      (c : C)
      → table
          (continue {0, 0, 0}
            (λ (_ : Answer). pure {A = Unit {0}} (tt {0}))
            (request attempt sleep clock options Request.create_table c)).1
        ≡ table c
  create_table-table c =
      Reads-table table (λ l. tt {0}) c
        (continue {0, 0, 0} (λ (_ : Answer). pure {A = Unit {0}} (tt {0}))
          (request attempt sleep clock options Request.create_table c))
        (create_table-Reads c)
