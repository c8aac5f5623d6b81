-- ===== src/Tests/Messages.antt =====
-- The messages of the SQLite adapter at concrete inputs.
use baileys_session_manager.Base.{◌≡◌, refl, Bool, true, false, List, [], ◌++◌, map, keep, text}
use baileys_session_manager.Base.Exec.{ok}
use baileys_session_manager.Adapters.Sqlite.Worker.{Op, Reply, Store, handle}
use baileys_session_manager.Adapters.Sqlite.Messages.{
  Request, WorkerResponse, System, Reach, started, create, call, ensure_worker, with_worker, spawn,
  post, start, work, receive, settle_ready, outcome, settle_call, has, die, here, next, calls,
  posts, starts, works, receives,
}
use baileys_session_manager.Adapters.Sqlite.Messages.Serial.{serial}
use baileys_session_manager.Adapters.Sqlite.Messages.Order.{settled_in_order}
use baileys_session_manager.Adapters.Sqlite.Messages.Death.{dead_never_settles}

abbrev store : Store
store = record { created = true; closed = false; table = []; now = 0; faults = [] }

abbrev op : Op
op = Op.list_sessions

abbrev ready : WorkerResponse
ready = record { id = 0; answer = ok Reply.nothing }

abbrev question : Request
question = record { id = 1; op = op }

abbrev answer : WorkerResponse
answer = record { id = 1; answer = (handle op store).0 }

-- A call, the start of the thread, the request and its answer.
abbrev called : System
called = call op (create store)

abbrev running : System
running = start called

abbrev told : System
told = receive ready [] running

abbrev posted : System
posted = post op [] told

abbrev answered : System
answered = work question [] posted

abbrev finished : System
finished = receive answer [] answered

to_posted : {dying : Bool} → Reach dying (create store) posted
unfolding create call ensure_worker with_worker spawn start receive settle_ready outcome settle_call
    post
to_posted =
    next
      (next (next (next here (calls (create store) op)) (starts called refl))
        (receives running ready [] refl))
      (posts told op [] refl refl)

to_finished : Reach false (create store) finished
unfolding create call ensure_worker with_worker spawn start receive settle_ready outcome settle_call
    post work has keep
to_finished =
    next (next to_posted (works posted question [] refl refl)) (receives answered answer [] refl)

settled_in_order_example :
    (rest : List WorkerResponse) × (serial 1 finished.posted store ≡ finished.settled ++ rest)
    × (finished.adapter.pending ≡ map (λ m. m.id) rest)
settled_in_order_example = settled_in_order store finished to_finished

-- The thread dies before it answers, and another call is made.
abbrev dead : System
dead = die (text "out of memory") posted

abbrev after_death : System
after_death = post op [] (call op dead)

dead_never_settles_example :
    (after_death.settled ≡ dead.settled) × (after_death.refused ≡ dead.refused)
unfolding create call ensure_worker with_worker spawn start receive settle_ready outcome settle_call
    post die
dead_never_settles_example =
    dead_never_settles dead after_death (refl, started, refl, (λ x e. cc), refl)
      (next (next here (calls dead op)) (posts (call op dead) op [] refl refl))
