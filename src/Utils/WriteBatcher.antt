-- ===== src/Utils/WriteBatcher.antt =====
-- src/utils/write-batcher.ts: `WriteBatcher`, as the steps of an event loop. A promise is a number,
-- and the queue of p-queue with `concurrency: 1` is a list of jobs, of which one runs at a time.
pub mod Values
pub mod Promises
use baileys_session_manager.Base.{
  ℕ, suc, ◌≡◌, ◌≢◌, Bool, true, false, Option, none, some, List, [], ◌∷◌, ◌++◌, ◌==◌, if◌then◌else◌,
  Text,
}
use baileys_session_manager.Base.Map.{Map, insert}

-- `timer` stands for `this.timer !== null`, and `flush_waiters` for the `resolve` functions.
pub record WriteBatcher : Type 0 where
  pub pending : Map Text
  pub debounce_ms : ℕ
  pub timer : Bool
  pub flush_waiters : List ℕ

-- A call of `flushNow` that waits for its task: the waiters that it took with it, and the promise
-- that its caller awaits. A call by the timer has no caller.
pub record Job : Type 0 where
  pub waiters : List ℕ
  pub caller : Option ℕ

pub record Running : Type 0 where
  pub job : Job
  pub entries : Map Text

-- The batcher in its event loop. `stored` is what the flushes have written, `intended` is what
-- it would be if each write were written at once, and `next` numbers the promises.
pub record System : Type 0 where
  pub batcher : WriteBatcher
  pub queue : List Job
  pub running : Option Running
  pub resolved : List ℕ
  pub rejected : List ℕ
  pub stored : Map Text
  pub intended : Map Text
  pub next : ℕ

unfoldable pub create : ℕ → Map Text → System
create debounce_ms stored = record {
  batcher = record { pending = []; debounce_ms = debounce_ms; timer = false; flush_waiters = [] };
  queue = [];
  running = none;
  resolved = [];
  rejected = [];
  stored = stored;
  intended = stored;
  next = 0;
}

abbrev pub optional : Option ℕ → List ℕ
optional none = []
optional (some p) = p ∷ []

-- `flushNow`, up to the wait for its task.
unfoldable pub flush_now : Option ℕ → System → System
flush_now caller s = record s {
  batcher = record s.batcher { timer = false; flush_waiters = [] };
  queue = s.queue ++ record { waiters = s.batcher.flush_waiters; caller = caller } ∷ [];
}

-- `this.pending.set(key, value)`
set_pending : Text → Text → System → System
set_pending key value s = record s {
  batcher = record s.batcher { pending = insert key value s.batcher.pending };
  intended = insert key value s.intended;
  next = suc s.next;
}

-- The rest of `write` with a debounce: the promise waits, and the timer starts anew.
arm : ℕ → System → System
arm promise s = record s {
  batcher = record s.batcher {
    flush_waiters = s.batcher.flush_waiters ++ promise ∷ [];
    timer = true;
  };
}

-- `write`. Its promise is the number `next`.
unfoldable pub write : Text → Text → System → System
unfolding set_pending arm flush_now
write key value s =
    if s.batcher.debounce_ms == 0
    then flush_now (some s.next) (set_pending key value s)
    else arm s.next (set_pending key value s)

-- A call of `flushNow` from outside, as by `saveCreds`.
unfoldable pub request : System → System
unfolding flush_now
request s = flush_now (some s.next) (record s { next = suc s.next })

-- The end of `flushNow`: the waiters are resolved, and the call returns.
unfoldable pub settle : Job → System → System
settle job s = record s { resolved = s.resolved ++ (job.waiters ++ optional job.caller) }

-- The task of a job with something pending.
unfoldable pub start : Job → List Job → System → System
start job rest s = record s {
  batcher = record s.batcher { pending = [] };
  queue = rest;
  running = some (record { job = job; entries = s.batcher.pending });
}

-- The entries of a flush, written in order.
unfoldable pub store_entries : Map Text → Map Text → Map Text
store_entries [] stored = stored
store_entries ((key, value) ∷ rest) stored = store_entries rest (insert key value stored)

unfoldable pub flushed : Running → System → System
unfolding settle store_entries
flushed r s = settle r.job (record s { running = none; stored = store_entries r.entries s.stored })

-- The flush throws: `flushNow` throws to its caller, and its waiters are forgotten.
unfoldable pub failed : Running → System → System
failed r s = record s { running = none; rejected = s.rejected ++ optional r.job.caller }

-- The steps, in any order that the environment chooses. Only with `failing` may a flush throw.
pub data Step (failing : Bool) : System → System → Type 0 where
  writes : (s : System) (key value : Text) → Step failing s (write key value s)
  requests : (s : System) → Step failing s (request s)
  timer_fires : (s : System) → s.batcher.timer ≡ true → Step failing s (flush_now none s)
  skips :
      (s : System) (job : Job) (rest : List Job)
      → s.running ≡ none
      → s.queue ≡ job ∷ rest
      → s.batcher.pending ≡ []
      → Step failing s (settle job (record s { queue = rest }))
  starts :
      (s : System) (job : Job) (rest : List Job)
      → s.running ≡ none
      → s.queue ≡ job ∷ rest
      → s.batcher.pending ≢ []
      → Step failing s (start job rest s)
  succeeds : (s : System) (r : Running) → s.running ≡ some r → Step failing s (flushed r s)
  fails :
      (s : System) (r : Running) → failing ≡ true → s.running ≡ some r → Step failing s (failed r s)
  -- `queue.clear()` of `destroy`.
  clears : (s : System) → Step failing s (record s { queue = [] })

pub data Reach (failing : Bool) (s : System) : System → Type 0 where
  here : Reach failing s s
  next : {t u : System} → Reach failing s t → Step failing t u → Reach failing s u
