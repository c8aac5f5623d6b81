-- ===== src/Adapters/Sqlite/Messages.antt =====
-- The messages between src/adapters/sqlite-adapter.ts and the thread of
-- src/adapters/sqlite-worker.ts: `ensureWorker`, `call` and the listeners of the worker, with the
-- queues of messages both ways, which keep their order.
pub mod Serial
pub mod Order
pub mod Death
use baileys_session_manager.Base.{
  ℕ, zero, suc, ◌+◌, ◌≡◌, ◌⊎◌, Bool, true, false, ◌==◌, not, Option, none, some, List, [], ◌∷◌,
  ◌++◌, keep, if◌then◌else◌, Text, text,
}
use baileys_session_manager.Base.Exec.{Result, ok, error}
use baileys_session_manager.Adapters.Sqlite.Worker.{Op, Reply, nothing, Store, handle}

-- `{ id, op, args }`, and an answer, `{ id, ok, result, error }`.
pub record Request : Type 0 where
  pub id : ℕ
  pub op : Op

pub record WorkerResponse : Type 0 where
  pub id : ℕ
  pub answer : Result Reply

-- The promise `ready`: it is not settled, or is resolved or rejected.
pub data Ready : Type 0 where
  starting started : Ready
  failed : Text → Ready

-- The fields of the adapter; a waiter stands in `pending` by its id.
pub record SqliteAdapter : Type 0 where
  pub worker : Bool
  pub next_request_id : ℕ
  pub pending : List ℕ
  pub ready : Option Ready

pub data Thread : Type 0 where
  absent loading running ended : Thread

-- `waiting` are the calls that await `ensureWorker`, and `requests` and `responses` the messages
-- on their way. The thread handles requests while it is `running`. `settled` are the promises of
-- `call` that are resolved or rejected, with the ids of their requests, `refused` those that are
-- rejected without a request, and `posted` the operations of all requests so far.
pub record System : Type 0 where
  pub adapter : SqliteAdapter
  pub waiting : List Op
  pub requests : List Request
  pub responses : List WorkerResponse
  pub thread : Thread
  pub store : Store
  pub settled : List WorkerResponse
  pub refused : List Op
  pub posted : List Op

unfoldable pub create : Store → System
create store = record {
  adapter = record { worker = false; next_request_id = 1; pending = []; ready = none };
  waiting = [];
  requests = [];
  responses = [];
  thread = absent;
  store = store;
  settled = [];
  refused = [];
  posted = [];
}

-- `if (this.ready) { return this.ready }`, and the thread that is made otherwise.
unfoldable pub with_worker : Option Ready → SqliteAdapter → SqliteAdapter
with_worker none a = record a { worker = true; ready = some starting }
with_worker (some r) a = a

unfoldable pub spawn : Option Ready → Thread → Thread
spawn none t = loading
spawn (some r) t = t

unfoldable pub ensure_worker : SqliteAdapter → SqliteAdapter
ensure_worker a = with_worker a.ready a

-- The first part of `call`.
unfoldable pub call : Op → System → System
unfolding ensure_worker
call op s = record s {
  adapter = ensure_worker s.adapter;
  waiting = s.waiting ++ op ∷ [];
  thread = spawn s.adapter.ready s.thread;
}

-- The rest of `call`, once the worker is ready.
unfoldable pub post : Op → List Op → System → System
post op rest s = record s {
  adapter = record s.adapter {
    next_request_id = suc s.adapter.next_request_id;
    pending = s.adapter.pending ++ s.adapter.next_request_id ∷ [];
  };
  waiting = rest;
  requests = s.requests ++ record { id = s.adapter.next_request_id; op = op } ∷ [];
  posted = s.posted ++ op ∷ [];
}

-- The thread runs `main`, whose last message tells that it is ready or has failed.
unfoldable pub start : System → System
start s = record s {
  thread = running;
  responses = s.responses ++ record { id = 0; answer = ok nothing } ∷ [];
}

unfoldable pub fail_to_start : Text → System → System
fail_to_start e s = record s { responses = s.responses ++ record { id = 0; answer = error e } ∷ [] }

-- The handler of the thread answers a request.
unfoldable pub work : Request → List Request → System → System
work q rest s = record s {
  requests = rest;
  store = (handle q.op s.store).1;
  responses = s.responses ++ record { id = q.id; answer = (handle q.op s.store).0 } ∷ [];
}

-- The listener of the first message.
unfoldable pub outcome : WorkerResponse → Option Ready → Option Ready
outcome m (some starting) = elim m.answer [
  | ok r ↦ some (if m.id == 0 then started else failed (text "sqlite worker failed to start"))
  | error e ↦ some (failed e)
]
outcome m r = r

unfoldable pub settle_ready : WorkerResponse → SqliteAdapter → SqliteAdapter
settle_ready m a = record a { ready = outcome m a.ready }

unfoldable pub has : ℕ → List ℕ → Bool
has i [] = false
has i (j ∷ js) = if j == i then true else has i js

-- The other listener.
unfoldable pub settle_call : WorkerResponse → System → System
unfolding has
settle_call m s =
    if m.id == 0
    then s
    else (if has m.id s.adapter.pending
        then record s {
          adapter = record s.adapter { pending = keep (λ i. not (i == m.id)) s.adapter.pending };
          settled = s.settled ++ m ∷ [];
        }
        else s)

unfoldable pub receive : WorkerResponse → List WorkerResponse → System → System
unfolding settle_ready settle_call
receive m rest s = settle_call m (record s { adapter = settle_ready m s.adapter; responses = rest })

-- The promises of all that is pending are rejected.
abbrev rejections : Text → List ℕ → List WorkerResponse
rejections e [] = []
rejections e (i ∷ is) = record { id = i; answer = error e } ∷ rejections e is

-- The `error` event: the thread has died, with what it had not answered.
unfoldable pub die : Text → System → System
die e s = record s {
  adapter = record s.adapter { pending = [] };
  requests = [];
  thread = ended;
  settled = s.settled ++ rejections e s.adapter.pending;
}

-- The steps, in any order that the environment chooses. Only with `dying` may the thread die.
pub data Step (dying : Bool) : System → System → Type 0 where
  calls : (s : System) (op : Op) → Step dying s (call op s)
  posts :
      (s : System) (op : Op) (rest : List Op)
      → s.waiting ≡ op ∷ rest
      → s.adapter.ready ≡ some started
      → Step dying s (post op rest s)
  refuses :
      (s : System) (op : Op) (rest : List Op) (e : Text)
      → s.waiting ≡ op ∷ rest
      → s.adapter.ready ≡ some (failed e)
      → Step dying s (record s { waiting = rest; refused = s.refused ++ op ∷ [] })
  starts : (s : System) → s.thread ≡ loading → Step dying s (start s)
  fails_to_start : (s : System) (e : Text) → s.thread ≡ loading → Step dying s (fail_to_start e s)
  works :
      (s : System) (q : Request) (rest : List Request)
      → s.requests ≡ q ∷ rest
      → s.thread ≡ running
      → Step dying s (work q rest s)
  receives :
      (s : System) (m : WorkerResponse) (rest : List WorkerResponse)
      → s.responses ≡ m ∷ rest
      → Step dying s (receive m rest s)
  dies :
      (s : System) (e : Text)
      → dying ≡ true
      → (s.thread ≡ loading) ⊎ (s.thread ≡ running)
      → Step dying s (die e s)

pub data Reach (dying : Bool) (s : System) : System → Type 0 where
  here : Reach dying s s
  next : {t u : System} → Reach dying s t → Step dying t u → Reach dying s u
