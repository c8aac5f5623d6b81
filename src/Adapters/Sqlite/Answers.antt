-- ===== src/Adapters/Sqlite/Answers.antt =====
-- What each operation of the SQLite adapter reads from the table or writes to it.
use baileys_session_manager.Base.{
  ℕ, ◌≡◌, refl, Text, not, Option, List, [], ◌∷◌, keep, ◌⊎◌, inl, inr, ap, sym, arith,
}
use baileys_session_manager.Base.Exec.{Result, ok, error, continue, pure}
use baileys_session_manager.Adapter.{Entry, SessionRecord, Failed}
use baileys_session_manager.Utils.Retry.{RetryOptions}
use baileys_session_manager.Adapters.Sqlite.{
  as_row, as_rows, as_names, to_optional, collect, get, get_many, set_many, delete_many,
  get_all_keys,
}
use baileys_session_manager.Adapters.Sqlite.Worker.{
  Store, Row, Op, Reply, handle, prepare, select, is_in, upsert_all, row, rows, names,
}
use baileys_session_manager.Adapters.Table.Rows.{
  Unique, keep-is_in-none, keep-not-is_in-none, keys_of,
}
use baileys_session_manager.Adapters.Sqlite.Calls.{
  Reads, Writes, call-Reads, call-Writes, then-Reads, then-Writes, prepare_table,
}

pub then-answer :
    {A B : Type 0} (f : List Row → A) (g : A → B) (s : Store) (r : Result A) (t : Store)
    → Reads f s r t
    → Reads
        (λ l. g (f l))
        s
        (continue (λ a. pure (g a)) (r, t)).0
        (continue (λ a. pure (g a)) (r, t)).1
then-answer f g s (ok a) t (same, e) = (same, ap g e)
then-answer f g s (error x) t same = same

pub then-done :
    {A : Type 0} (f : ℕ → List Row → List Row) (s : Store) (r : Result A) (t : Store)
    → Writes f s r t
    → Writes f s
        (continue {0, 0, 0} {B = Unit {0}} (λ _. pure tt) (r, t)).0
        (continue {0, 0, 0} {B = Unit {0}} (λ _. pure tt) (r, t)).1
then-done f s (ok a) t w = w
then-done f s (error x) t same = same

get_many-reply :
    (sid : Text) (ks : List Text) (t : Store)
    → Reads
        (λ l. rows (keep (is_in sid ks) l))
        t
        (handle (Op.get_many sid ks) t).0
        (handle (Op.get_many sid ks) t).1
unfolding handle
get_many-reply sid [] t = (refl, ap rows (sym (keep-is_in-none sid t.table)))
get_many-reply sid (k ∷ ks) t =
    then-Reads prepare (λ l. rows (keep (is_in sid (k ∷ ks)) l)) t (prepare_table t)

module _ (options : RetryOptions) where
  pub get-Reads :
      (sid key : Text) (s : Store)
      → Reads
          (λ l. to_optional (select sid key l))
          s
          (get options sid key s).0
          (get options sid key s).1
  unfolding get as_row handle
  get-Reads sid key s =
      let reply : List Row → Reply = λ l. row (select sid key l) in
      then-answer reply (λ r. to_optional (as_row r)) s _ _
        (call-Reads options (Op.get sid key) reply
          (λ t. then-Reads prepare reply t (prepare_table t)) s)

  pub get_many-Reads :
      (sid : Text) (ks : List Text) (s : Store)
      → Reads
          (λ l. collect (keep (is_in sid ks) l) [])
          s
          (get_many options sid ks s).0
          (get_many options sid ks s).1
  unfolding get_many as_rows
  get_many-Reads sid ks s =
      let reply : List Row → Reply = λ l. rows (keep (is_in sid ks) l) in
      then-answer reply (λ r. collect (as_rows r) []) s _ _
        (call-Reads options (Op.get_many sid ks) reply (get_many-reply sid ks) s)

  pub get_all_keys-Reads :
      (sid : Text) (s : Store)
      → Reads (keys_of sid) s (get_all_keys options sid s).0 (get_all_keys options sid s).1
  unfolding get_all_keys as_names handle
  get_all_keys-Reads sid s =
      let reply : List Row → Reply = λ l. names (keys_of sid l) in
      then-answer reply as_names s _ _ (
        call-Reads options (Op.get_all_keys sid) reply
          (λ t. then-Reads prepare reply t (prepare_table t)) s)

  pub set_many-Writes :
      (sid : Text) (es : List Entry) (s : Store)
      → Writes (upsert_all sid es) s (set_many options sid es s).0 (set_many options sid es s).1
  unfolding set_many upsert_all handle
  set_many-Writes sid [] s = (0, refl)
  set_many-Writes sid (e ∷ es) s =
      let f = upsert_all sid (e ∷ es) in
      then-done f s _ _ (
        call-Writes options (Op.set_many sid (e ∷ es)) f
          (λ t. then-Writes prepare f t (prepare_table t)) s)

  pub delete_many-Writes :
      (sid : Text) (ks : List Text) (s : Store)
      → Writes
          (λ _ l. keep (λ r. not (is_in sid ks r)) l)
          s
          (delete_many options sid ks s).0
          (delete_many options sid ks s).1
  unfolding delete_many handle
  delete_many-Writes sid [] s = (0, sym (keep-not-is_in-none sid s.table))
  delete_many-Writes sid (k ∷ ks) s =
      let f : ℕ → List Row → List Row = λ _ l. keep (λ r. not (is_in sid (k ∷ ks) r)) l in
      then-done f s _ _ (
        call-Writes options (Op.delete_many sid (k ∷ ks)) f
          (λ t. then-Writes prepare f t (prepare_table t)) s)

-- What callers see of a database file.
abbrev pub visible : Store → Text → Text → Option SessionRecord
visible s sid key = to_optional (select sid key s.table)

abbrev pub IsKeyed : Store → Type 0
IsKeyed s = Unique s.table

-- From a call of a read or a write to a law.
pub Reads-rows :
    {A : Type 0} (f : List Row → A) (s : Store) (out : Result A × Store)
    → Reads f s out.0 out.1
    → visible out.1 ≡ visible s
Reads-rows f s (ok a, t) (same, e) = ap (λ l sid key. to_optional (select sid key l)) same
Reads-rows f s (error x, t) same = ap (λ l sid key. to_optional (select sid key l)) same

pub Reads-IsKeyed :
    {A : Type 0} (f : List Row → A) (s : Store) (out : Result A × Store)
    → Reads f s out.0 out.1
    → IsKeyed s
    → IsKeyed out.1
Reads-IsKeyed f s (ok a, t) (same, e) u = rw same u
Reads-IsKeyed f s (error x, t) same u = rw same u

pub Reads-answer :
    {A : Type 0} (f : List Row → A) (s : Store) (out : Result A × Store)
    → Reads f s out.0 out.1
    → (out.0 ≡ ok (f s.table)) ⊎ Failed out
Reads-answer f s (ok a, t) (same, e) = inl (ap ok e)
Reads-answer f s (error x, t) same = inr (x, refl)

pub Reads-ok :
    {A : Type 0} (f : List Row → A) (s : Store) (out : Result A × Store) (a : A)
    → Reads f s out.0 out.1
    → out.0 ≡ ok a
    → a ≡ f s.table
Reads-ok f s (ok b, t) a (same, e) h = ground (arith, e)
Reads-ok f s (error x, t) a same h = absurd (ground arith)

pub writes_lem :
    {A : Type 0} (P : List Row → Type 0) (f : ℕ → List Row → List Row) (s : Store)
    (out : Result A × Store)
    → Writes f s out.0 out.1
    → P s.table
    → ((now : ℕ) → P (f now s.table))
    → P out.1.table
writes_lem P f s (ok a, t) (now, e) old new = rw e (new now)
writes_lem P f s (error x, t) same old new = rw same old

pub Writes-ok :
    {A : Type 0} (f : ℕ → List Row → List Row) (s : Store) (out : Result A × Store) (a : A)
    → Writes f s out.0 out.1
    → out.0 ≡ ok a
    → (now : ℕ) × (out.1.table ≡ f now s.table)
Writes-ok f s (ok b, t) a w h = w
Writes-ok f s (error x, t) a same h = absurd (ground arith)
