-- ===== src/Adapters/Sqlite/Calls.antt =====
-- What the worker and a retried call of it do to the table.
use baileys_session_manager.Base.{
  ℕ, ◌≡◌, refl, Text, Option, none, some, List, [], ◌∷◌, ap, ◌∙◌, arith,
}
use baileys_session_manager.Base.Exec.{Result, ok, error, Exec, continue, ◌>>◌}
use baileys_session_manager.Utils.Retry.{RetryOptions}
use baileys_session_manager.Utils.Retry.Effects.{with_retry-Outcome, Outcome}
use baileys_session_manager.Adapters.Sqlite.{call, sleep}
use baileys_session_manager.Adapters.Base.{base_with_retry}
use baileys_session_manager.Adapters.Sqlite.Worker.{
  reads, writes, Store, Row, Op, Reply, execute, prepare, handle, strike, fault_or,
}

fault_or_table : (f : Option Text) (s : Store) → (fault_or f s).1.table ≡ s.table
unfolding fault_or
fault_or_table none s = refl
fault_or_table (some e) s = refl

pub execute_table : (s : Store) → (execute s).1.table ≡ s.table
unfolding execute
execute_table s =
    ground (arith, fault_or_table (strike s.faults).0 (record s { faults = (strike s.faults).1 }))

pub prepare_table : (s : Store) → (prepare s).1.table ≡ s.table
unfolding prepare
prepare_table s = ground (arith, execute_table s)

-- A block whose first step keeps the table, and whose second cannot fail.
then-unhurt :
    (m : Exec Store (Unit {0})) (k : Exec Store Reply) (s : Store) (e : Text)
    → (m s).1.table ≡ s.table
    → ((t : Store) → (a : Reply) × ((k t).0 ≡ ok a))
    → ((m >> k) s).0 ≡ error e
    → ((m >> k) s).1.table ≡ s.table
then-unhurt m k s e kept fine = go (m s) kept
  where
    go :
        (out : Result (Unit {0}) × Store)
        → out.1.table ≡ s.table
        → (continue (λ _. k) out).0 ≡ error e
        → (continue (λ _. k) out).1.table ≡ s.table
    go (ok tt, t) same h = absurd (ground (arith, fine t))
    go (error x, t) same h = same

pub handle-unhurt :
    (op : Op) (s : Store) (e : Text) → (handle op s).0 ≡ error e → (handle op s).1.table ≡ s.table
unfolding handle reads writes
handle-unhurt Op.init s e h = then-unhurt execute _ s e (execute_table s) (λ t. (_, refl)) h
handle-unhurt (Op.get sid key) s e h =
    then-unhurt prepare _ s e (prepare_table s) (λ t. (_, refl)) h
handle-unhurt (Op.get_many sid []) s e h = refl
handle-unhurt (Op.get_many sid (k ∷ ks)) s e h =
    then-unhurt prepare _ s e (prepare_table s) (λ t. (_, refl)) h
handle-unhurt (Op.set_many sid es) s e h =
    then-unhurt prepare _ s e (prepare_table s) (λ t. (_, refl)) h
handle-unhurt (Op.delete_many sid []) s e h = refl
handle-unhurt (Op.delete_many sid (k ∷ ks)) s e h =
    then-unhurt prepare _ s e (prepare_table s) (λ t. (_, refl)) h
handle-unhurt (Op.get_all_keys sid) s e h =
    then-unhurt prepare _ s e (prepare_table s) (λ t. (_, refl)) h
handle-unhurt (Op.delete_session sid) s e h =
    then-unhurt prepare _ s e (prepare_table s) (λ t. (_, refl)) h
handle-unhurt Op.list_sessions s e h =
    then-unhurt prepare _ s e (prepare_table s) (λ t. (_, refl)) h
handle-unhurt (Op.session_exists sid) s e h =
    then-unhurt prepare _ s e (prepare_table s) (λ t. (_, refl)) h
handle-unhurt Op.close s e h = absurd (ground arith)
handle-unhurt (Op.set sid key) s e h = refl
handle-unhurt (Op.delete sid) s e h = refl

pub table-sleep : (ms : ℕ) (s : Store) → (sleep ms s).table ≡ s.table
unfolding sleep
table-sleep ms s = refl

-- How a call ends that tries the worker again and again.
abbrev pub Tried : Op → Store → Result Reply → Store → Type 0
Tried op = Outcome sleep (handle op) (λ t. t.table) table-sleep (handle-unhurt op)

pub call-Tried :
    (options : RetryOptions) (op : Op) (s : Store)
    → Tried op s (call options op s).0 (call options op s).1
unfolding call base_with_retry
call-Tried options op s =
    with_retry-Outcome sleep (handle op) (λ t. t.table) table-sleep (handle-unhurt op) options s

-- A call of a read: the table stays, and the answer is read from it.
abbrev pub Reads : {A : Type 0} → (List Row → A) → Store → Result A → Store → Type 0
Reads f s (ok a) t = (t.table ≡ s.table) × (a ≡ f s.table)
Reads f s (error e) t = t.table ≡ s.table

-- A call of a write: the table is written at some time, or stays.
abbrev pub Writes : {A : Type 0} → (ℕ → List Row → List Row) → Store → Result A → Store → Type 0
Writes f s (ok a) t = (now : ℕ) × (t.table ≡ f now s.table)
Writes f s (error e) t = t.table ≡ s.table

pub then-Reads :
    (m : Exec Store (Unit {0})) (f : List Row → Reply) (s : Store)
    → (m s).1.table ≡ s.table
    → Reads f s ((m >> reads f) s).0 ((m >> reads f) s).1
unfolding reads
then-Reads m f s = go (m s)
  where
    go :
        (out : Result (Unit {0}) × Store)
        → out.1.table ≡ s.table
        → Reads f s (continue (λ _. reads f) out).0 (continue (λ _. reads f) out).1
    go (ok tt, t) same = (same, ap f same)
    go (error x, t) same = same

pub then-Writes :
    (m : Exec Store (Unit {0})) (f : ℕ → List Row → List Row) (s : Store)
    → (m s).1.table ≡ s.table
    → Writes f s
        ((m >> writes (λ s'. f s'.now s'.table)) s).0
        ((m >> writes (λ s'. f s'.now s'.table)) s).1
unfolding writes
then-Writes m f s = go (m s)
  where
    go :
        (out : Result (Unit {0}) × Store)
        → out.1.table ≡ s.table
        → Writes f s
            (continue (λ _. writes (λ s'. f s'.now s'.table)) out).0
            (continue (λ _. writes (λ s'. f s'.now s'.table)) out).1
    go (ok tt, t) same = (t.now, ap (f t.now) same)
    go (error x, t) same = same

module _ (options : RetryOptions) (op : Op) where
  pub call-Reads :
      (f : List Row → Reply)
      → ((s : Store) → Reads f s (handle op s).0 (handle op s).1)
      → (s : Store) → Reads f s (call options op s).0 (call options op s).1
  call-Reads f h s = go (call options op s).0 (call options op s).1 (call-Tried options op s)
    where
      go : (r : Result Reply) (t : Store) → Tried op s r t → Reads f s r t
      go (ok a) t (s', same, done) =
          let p : Reads f s' (ok a) t = rw done at (h s') in (p.0 ∙ same, p.1 ∙ ap f same)
      go (error e) t same = same

  pub call-Writes :
      (f : ℕ → List Row → List Row)
      → ((s : Store) → Writes f s (handle op s).0 (handle op s).1)
      → (s : Store) → Writes f s (call options op s).0 (call options op s).1
  call-Writes f h s = go (call options op s).0 (call options op s).1 (call-Tried options op s)
    where
      go : (r : Result Reply) (t : Store) → Tried op s r t → Writes f s r t
      go (ok a) t (s', same, done) =
          let p : Writes f s' (ok a) t = rw done at (h s') in (p.0, p.1 ∙ ap (f p.0) same)
      go (error e) t same = same
