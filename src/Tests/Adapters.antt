-- ===== src/Tests/Adapters.antt =====
-- The adapters of the databases at concrete inputs.
use baileys_session_manager.Base.{
  ◌≡◌, ◌⊎◌, ℕ, zero, suc, ◌+◌, refl, none, some, List, text, inl, inr,
}
use baileys_session_manager.Base.Exec.{ok, error, Exec}
use baileys_session_manager.Adapter.{Laws, Failed}
use baileys_session_manager.Utils.Retry.{RetryOptions}
use baileys_session_manager.Adapters.Table.{Row}
use baileys_session_manager.Adapters.Table.Requests.{
  Request, Answer, Server, Serves, answer, effect, Partly,
}
use baileys_session_manager.Adapters.Table.Pool.{Partly-refl}
use baileys_session_manager.Adapters.Table.Client.Reads.{visible, IsKeyed}
use baileys_session_manager.Adapters.Postgres.{postgres_adapter}
use baileys_session_manager.Adapters.Postgres.Refinement.{postgres_adapter-Laws}
use baileys_session_manager.Adapters.D1.{d1_adapter}
use baileys_session_manager.Adapters.D1.Refinement.{d1_adapter-Laws}
use baileys_session_manager.Adapters.Mongo.{mongo_adapter}
use baileys_session_manager.Adapters.Mongo.Refinement.{mongo_adapter-Laws}

-- A server that refuses its next few requests.
record Busy : Type 0 where
  pub table : List Row
  pub refusals : ℕ
  pub now : ℕ

abbrev send_to : ℕ → Request → Exec Busy Answer
send_to zero q s = (ok (answer q s.table), record s { table = effect q s.table })
send_to (suc n) q s = (error (text "too many connections"), record s { refusals = n })

abbrev server : Server Busy
server = record {
  send = λ q s. send_to s.refusals q s;
  end = λ s. (ok tt, s);
  sleep = λ ms s. record s { now = s.now + ms };
  clock = λ s. s.now;
}

abbrev table_of : Busy → List Row
table_of s = s.table

send_to-answers :
    (n : ℕ) (q : Request) (s : Busy)
    → (((send_to n q s).0 ≡ ok (answer q s.table)) × ((send_to n q s).1.table ≡ effect q s.table))
      ⊎ (Failed (send_to n q s) × Partly q s.table (send_to n q s).1.table)
send_to-answers zero q s = inl (refl, refl)
send_to-answers (suc n) q s = inr ((text "too many connections", refl), Partly-refl q s.table)

serves : Serves server.send server.sleep table_of
serves = record { send_lem = λ q s. send_to-answers s.refusals q s; table-sleep = λ ms s. refl }

abbrev options : RetryOptions
options = record { retries = some 2; min_delay_ms = none; max_delay_ms = some 300 }

postgres_adapter-Laws_example :
    Laws
      (postgres_adapter server options)
      (visible (λ p. table_of p.state))
      (IsKeyed (λ p. table_of p.state))
postgres_adapter-Laws_example = postgres_adapter-Laws server table_of serves (λ s. refl) options

d1_adapter-Laws_example : Laws (d1_adapter server options) (visible table_of) (IsKeyed table_of)
d1_adapter-Laws_example = d1_adapter-Laws server table_of serves options

abbrev connect : Exec Busy (Unit {0})
connect s = (ok tt, s)

mongo_adapter-Laws_example :
    Laws
      (mongo_adapter server options connect)
      (visible (λ c. table_of c.state))
      (IsKeyed (λ c. table_of c.state))
mongo_adapter-Laws_example =
    mongo_adapter-Laws server table_of serves (λ s. refl) options connect (λ s. refl)
