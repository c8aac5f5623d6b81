-- ===== src/Adapters/Table/Pool.antt =====
-- The pool of connections that postgres-adapter.ts and mysql-adapter.ts make in `init`.
use baileys_session_manager.Adapter.{member}
use baileys_session_manager.Adapters.Table.{upsert_all}
use baileys_session_manager.Adapters.Table.Rows.{keep-not-is_in-none}
use baileys_session_manager.Base.{
  keep, sym, [], ◌∷◌, ℕ, ◌≡◌, refl, ap, Bool, true, false, List, Text, if◌then◌else◌, inl, inr,
  Bool-cases,
}
use baileys_session_manager.Base.Exec.{Result, ok, error, continue, Exec, throw, ◌>>◌}
use baileys_session_manager.Adapters.Table.{Row}
use baileys_session_manager.Adapters.Table.Requests.{Request, Answer, Server, Serves, Partly}

keep-all : (t : List Row) → keep (λ r. true) t ≡ t
unfolding keep
keep-all [] = refl
keep-all (r ∷ t) = ap (◌∷◌ r) (keep-all t)

-- A request that does nothing has done some part of what it does.
pub Partly-refl : (q : Request) (t : List Row) → Partly q t t
unfolding upsert_all member
Partly-refl Request.create_table t = refl
Partly-refl (Request.select_one sid key) t = refl
Partly-refl (Request.select_in sid ks) t = refl
Partly-refl (Request.upsert_rows sid es now) t = ([], es, refl, refl)
Partly-refl (Request.delete_one sid key) t = ([], λ k h. cc, sym (keep-not-is_in-none sid t))
Partly-refl (Request.delete_in sid ks) t = ([], λ k h. cc, sym (keep-not-is_in-none sid t))
Partly-refl (Request.select_session sid) t = refl
Partly-refl (Request.select_any sid) t = refl
Partly-refl Request.select_sessions t = refl
Partly-refl (Request.delete_session sid) t = (λ r. true, λ r h. refl, sym (keep-all t))

-- `pool` stands for `this.pool !== null`.
pub record Pooled (S : Type 0) : Type 0 where
  pub pool : Bool
  pub state : S

module _ {S : Type 0} where
  abbrev pub on_server : {A : Type 0} → Exec S A → Exec (Pooled S) A
  on_server m p = let (r, s) = m p.state in (r, record p { state = s })

  -- `() => this.client.query(…)`, where the getter `client` throws if there is no pool.
  unfoldable pub attempt : Text → Server S → Request → Exec (Pooled S) Answer
  attempt message server q p = if p.pool then on_server (server.send q) p else throw message p

  abbrev pub sleep : Server S → ℕ → Pooled S → Pooled S
  sleep server ms p = record p { state = server.sleep ms p.state }

  abbrev pub clock : Server S → Pooled S → ℕ
  clock server p = server.clock p.state

  abbrev pub set_pool : Bool → Exec (Pooled S) (Unit {0})
  set_pool b p = (ok tt, record p { pool = b })

  -- `await this.pool?.end(); this.pool = null`
  unfoldable pub close : Server S → Exec (Pooled S) (Unit {0})
  close server p = if p.pool then (on_server server.end >> set_pool false) p else set_pool false p

  pub attempt-Serves :
      (message : Text) (server : Server S) (table : S → List Row)
      → Serves server.send server.sleep table
      → Serves (attempt message server) (sleep server) (λ p. table p.state)
  unfolding attempt
  attempt-Serves message server table serves = record {
    send_lem = λ q p. elim (Bool-cases p.pool) [
      | inl there ↦ rw there (serves.send_lem q p.state)
      | inr missing ↦ rw missing (inr ((message, refl), Partly-refl q (table p.state)))
    ];
    table-sleep = λ ms p. serves.table-sleep ms p.state;
  }

  -- The end of the pool leaves the table, if the server does.
  pub close_table :
      (server : Server S) (table : S → List Row)
      → ((s : S) → table (server.end s).1 ≡ table s)
      → (p : Pooled S) → table (close server p).1.state ≡ table p.state
  unfolding close
  close_table server table ended p = elim (Bool-cases p.pool) [
    | inl there ↦ rw there (go (server.end p.state) (ended p.state))
    | inr missing ↦ rw missing refl
  ]
    where
      go :
          (out : Result (Unit {0}) × S)
          → table out.1 ≡ table p.state
          → table
              (continue {0, 0, 0}
                (λ (_ : Unit {0}). set_pool false)
                (out.0, record p { pool = true; state = out.1 })).1.state
            ≡ table p.state
      go (ok u, s) same = same
      go (error x, s) same = same
