-- ===== src/Adapters/Sqlite/Messages/Order.antt =====
-- The order of the messages between the SQLite adapter and its thread.
use baileys_session_manager.Base.{
  Option, none, some, ℕ, suc, ◌+◌, ◌≡◌, refl, ap, ap₂, sym, ◌∙◌, true, false, Bool-cases, inl, inr,
  ◌==◌, not, List, [], ◌∷◌, ◌++◌, keep, map, length, length-append, if◌then◌else◌, arith,
}
use mathlib.Core.List.{append_assoc, append-nil}
use baileys_session_manager.Base.Exec.{Result, ok, error}
use baileys_session_manager.Adapters.Sqlite.Worker.{Op, Reply, nothing, Store, handle}
use baileys_session_manager.Adapters.Sqlite.Messages.{
  Request, WorkerResponse, System, Step, Reach, create, call, ensure_worker, post, start,
  fail_to_start, work, receive, settle_ready, settle_call, has, here, next, calls, posts, refuses,
  starts, fails_to_start, works, receives, dies, with_worker, Ready, SqliteAdapter,
}
use baileys_session_manager.Adapters.Sqlite.Messages.Serial.{
  answers, answers-append, answers_answer, answers_notice, first_request, from_one, has-upto,
  id-serial, ids-serial, keep-upto_first, length-serial, nonzero, number, number-append, one_left,
  one_more, run, run-append, serial, serial-append, settled_length, snoc_length, tail, unsettled,
  upto, upto-snoc,
}

-- How the queues and the counters belong together: `done` are the operations that the thread has
-- handled.
record Ordered (st : Store) (s : System) : Type 0 where
  done : List Op
  left : List Op
  posted_lem : s.posted ≡ done ++ left
  requests_lem : s.requests ≡ number (suc (length done)) left
  store_lem : s.store ≡ run done st
  answers_lem : serial 1 done st ≡ s.settled ++ answers s.responses
  pending_lem :
      s.adapter.pending ≡ upto (suc (length s.settled)) (length (answers s.responses) + length left)
  next_lem : s.adapter.next_request_id ≡ suc (length s.posted)

create-Ordered : (st : Store) → Ordered st (create st)
unfolding create keep
create-Ordered st = record {
  done = [];
  left = [];
  posted_lem = refl;
  requests_lem = refl;
  store_lem = refl;
  answers_lem = refl;
  pending_lem = refl;
  next_lem = refl;
}

-- A message about the start changes no answer.
notice-Ordered :
    (st : Store) (s t : System) (rs : List WorkerResponse)
    → answers rs ≡ answers s.responses
    → (t.posted ≡ s.posted)
      × (t.requests ≡ s.requests)
      × (t.store ≡ s.store)
      × (t.settled ≡ s.settled)
      × (t.adapter.pending ≡ s.adapter.pending)
      × (t.adapter.next_request_id ≡ s.adapter.next_request_id)
      × (t.responses ≡ rs)
    → Ordered st s
    → Ordered st t
notice-Ordered st s t rs same (p, q, h, d, w, n, m) o = record {
  done = o.done;
  left = o.left;
  posted_lem = p ∙ o.posted_lem;
  requests_lem = q ∙ o.requests_lem;
  store_lem = h ∙ o.store_lem;
  answers_lem = o.answers_lem ∙ ap₂ (◌++◌) (sym d) (sym same ∙ ap answers (sym m));
  pending_lem =
      w
      ∙ o.pending_lem
      ∙ ap₂ (λ ds rs. upto (suc (length ds)) (length rs + length o.left)) (sym d)
          (sym same ∙ ap answers (sym m));
  next_lem = n ∙ o.next_lem ∙ ap (λ l. suc (length l)) (sym p);
}

counted :
    (st : Store) (s : System) (o : Ordered st s)
    → length s.settled + length (answers s.responses) ≡ length o.done
counted st s o =
    sym (length-append s.settled (answers s.responses))
    ∙ ap length (sym o.answers_lem)
    ∙ length-serial 1 o.done st

post-Ordered :
    (st : Store) (s : System) (op : Op) (rest : List Op)
    → Ordered st s
    → Ordered st (post op rest s)
unfolding post
post-Ordered st s op rest o =
    let all : length s.posted ≡ length o.done + length o.left =
      ap length o.posted_lem ∙ length-append o.done o.left in
    let n : s.adapter.next_request_id ≡ suc (length o.done) + length o.left =
      omega (arith, o.next_lem, all) in
    let k = length (answers s.responses) + length o.left in
    let m : s.adapter.next_request_id ≡ suc (length s.settled) + k =
      omega (arith, n, counted st s o) in
    record {
      done = o.done;
      left = o.left ++ op ∷ [];
      posted_lem = ap (λ l. l ++ op ∷ []) o.posted_lem ∙ append_assoc o.done o.left (op ∷ []);
      requests_lem =
          ap₂ (λ l i. l ++ record { id = i; op = op } ∷ []) o.requests_lem n
          ∙ sym (number-append (suc (length o.done)) o.left (op ∷ []));
      store_lem = o.store_lem;
      answers_lem = o.answers_lem;
      pending_lem =
          ap₂ (λ l i. l ++ i ∷ []) o.pending_lem m
          ∙ sym (upto-snoc (suc (length s.settled)) k)
          ∙ ap (upto (suc (length s.settled))) (longer (length (answers s.responses)) o.left);
      next_lem = omega (arith, o.next_lem, length-append s.posted (op ∷ []));
    }
  where
    longer : (k : ℕ) (l : List Op) → suc (k + length l) ≡ k + length (l ++ op ∷ [])
    longer k l = omega (arith, length-append l (op ∷ []))

work-Ordered :
    (st : Store) (s : System) (q : Request) (rest : List Request)
    → s.requests ≡ q ∷ rest
    → Ordered st s
    → Ordered st (work q rest s)
unfolding work
work-Ordered st s q rest e o = go o.left refl (sym o.requests_lem ∙ e)
  where
    go :
        (left : List Op)
        → o.left ≡ left
        → number (suc (length o.done)) left ≡ q ∷ rest
        → Ordered st (work q rest s)
    go [] h f = absurd (ground (arith, f))
    go (op ∷ left) h f =
        let same : record { id = suc (length o.done); op = op } ≡ q = ap (first_request q) f in
        let op_same : op ≡ q.op = ap (λ r. r.op) same in
        let id_same : suc (length o.done) ≡ q.id = ap (λ r. r.id) same in
        let handled : handle op (run o.done st) ≡ handle q.op s.store =
          ap₂ handle op_same (sym o.store_lem) in
        let answer : WorkerResponse = record { id = q.id; answer = (handle q.op s.store).0 } in
        let real : answers (s.responses ++ answer ∷ []) ≡ answers s.responses ++ answer ∷ [] =
          answers-append s.responses answer
          ∙ ap (λ b. answers s.responses ++ (if b then [] else answer ∷ [])) (nonzero id_same) in
        record {
          done = o.done ++ op ∷ [];
          left = left;
          posted_lem =
              o.posted_lem ∙ ap (λ l. o.done ++ l) h ∙ sym (append_assoc o.done (op ∷ []) left);
          requests_lem = ap tail (sym f) ∙ ap (λ i. number (suc i) left) (snoc_length o.done op);
          store_lem = ap (λ r. r.1) (sym handled) ∙ sym (run-append o.done (op ∷ []) st);
          answers_lem =
              serial-append 1 o.done (op ∷ []) st
              ∙ ap₂ (λ xs y. xs ++ y ∷ []) o.answers_lem
                  (ap₂ (λ i r. record { id = i; answer = r.0 }) (from_one id_same) handled)
              ∙ append_assoc s.settled (answers s.responses) (answer ∷ [])
              ∙ ap (λ rs. s.settled ++ rs) (sym real);
          pending_lem =
              o.pending_lem
              ∙ ap (λ l. upto (suc (length s.settled)) (length (answers s.responses) + length l)) h
              ∙ ap (upto (suc (length s.settled))) (
                  omega (arith, ap length real, length-append (answers s.responses) (answer ∷ [])));
          next_lem = o.next_lem;
        }

receive-Ordered :
    (st : Store) (s : System) (m : WorkerResponse) (rest : List WorkerResponse)
    → s.responses ≡ m ∷ rest
    → Ordered st s
    → Ordered st (receive m rest s)
unfolding receive settle_call
receive-Ordered st s m rest e o = elim (Bool-cases (m.id == 0)) [
  | inl notice ↦ rw notice (
      notice-Ordered st s (record s { adapter = settle_ready m s.adapter; responses = rest }) rest
        (sym (ap answers e ∙ answers_notice m rest notice))
        (refl, refl, refl, refl, refl, refl, refl) o)
  | inr call_answer ↦
      let real : answers s.responses ≡ m ∷ answers rest =
        ap answers e ∙ answers_answer m rest call_answer in
      let k = length (answers rest) + length o.left in
      let id_lem : m.id ≡ suc (length s.settled) =
        id-serial 1 o.done st s.settled (answers rest) m
          (o.answers_lem ∙ ap (λ rs. s.settled ++ rs) real)
        ∙ one_more (length s.settled) in
      let waits : s.adapter.pending ≡ upto m.id (suc k) =
        o.pending_lem
        ∙ ap₂ upto (sym id_lem) (
            ap (λ rs. length rs + length o.left) real
            ∙ one_left (length (answers rest)) (length o.left)) in
      let here : has m.id s.adapter.pending ≡ true = ap (has m.id) waits ∙ has-upto m.id k in
      rw call_answer (
        rw here (record {
          done = o.done;
          left = o.left;
          posted_lem = o.posted_lem;
          requests_lem = o.requests_lem;
          store_lem = o.store_lem;
          answers_lem =
              o.answers_lem
              ∙ ap (λ rs. s.settled ++ rs) real
              ∙ sym (append_assoc s.settled (m ∷ []) (answers rest));
          pending_lem =
              ap (keep (λ j. not (j == m.id))) waits
              ∙ keep-upto_first m.id k
              ∙ ap (λ i. upto (suc i) k) (id_lem ∙ settled_length s.settled m);
          next_lem = o.next_lem;
        }))
]

started-Ordered :
    (st : Store) (s t : System) (a : Result Reply)
    → t ≡ record s {
      thread = t.thread;
      responses = s.responses ++ record { id = 0; answer = a } ∷ [];
    }
    → Ordered st s
    → Ordered st t
started-Ordered st s t a e o =
    let n : WorkerResponse = record { id = 0; answer = a } in
    rw e (
      notice-Ordered st s (record s { thread = t.thread; responses = s.responses ++ n ∷ [] })
        (s.responses ++ n ∷ []) (answers-append s.responses n ∙ append-nil (answers s.responses))
        (refl, refl, refl, refl, refl, refl, refl) o)

with_worker-pending : (r : Option Ready) (a : SqliteAdapter) → (with_worker r a).pending ≡ a.pending
unfolding with_worker
with_worker-pending none a = refl
with_worker-pending (some r) a = refl

with_worker-next :
    (r : Option Ready) (a : SqliteAdapter) → (with_worker r a).next_request_id ≡ a.next_request_id
unfolding with_worker
with_worker-next none a = refl
with_worker-next (some r) a = refl

call-Ordered : (st : Store) (s : System) (op : Op) → Ordered st s → Ordered st (call op s)
unfolding call ensure_worker
call-Ordered st s op o =
    notice-Ordered st s (call op s) s.responses refl
      (
        refl,
        refl,
        refl,
        refl,
        with_worker-pending s.adapter.ready s.adapter,
        with_worker-next s.adapter.ready s.adapter,
        refl,
      )
      o

Step-Ordered : (st : Store) {s t : System} → Step false s t → Ordered st s → Ordered st t
unfolding start fail_to_start
Step-Ordered st (calls s op) o = call-Ordered st s op o
Step-Ordered st (posts s op rest w r) o = post-Ordered st s op rest o
Step-Ordered st (refuses s op rest e w r) o =
    notice-Ordered st s (record s { waiting = rest; refused = s.refused ++ op ∷ [] }) s.responses
      refl (refl, refl, refl, refl, refl, refl, refl) o
Step-Ordered st (starts s l) o = started-Ordered st s (start s) (ok nothing) refl o
Step-Ordered st (fails_to_start s e l) o = started-Ordered st s (fail_to_start e s) (error e) refl o
Step-Ordered st (works s q rest e l) o = work-Ordered st s q rest e o
Step-Ordered st (receives s m rest e) o = receive-Ordered st s m rest e o
Step-Ordered st (dies s e d l) o = absurd (ground (arith, d))

Reach-Ordered : (st : Store) (s : System) → Reach false (create st) s → Ordered st s
Reach-Ordered st s here = create-Ordered st
Reach-Ordered st s (next r step) = Step-Ordered st step (Reach-Ordered st _ r)

-- Unless the thread dies, in whatever order calls, messages and their handling follow each other:
-- the promises that are settled are those of the first requests that were posted, in their order,
-- each once, under its own id, and with the answer that its operation gets when all of them are
-- handled one after the other in that order; and the requests that are not settled yet are all
-- pending.
pub settled_in_order :
    (st : Store) (s : System)
    → Reach false (create st) s
    → (rest : List WorkerResponse) × (serial 1 s.posted st ≡ s.settled ++ rest)
      × (s.adapter.pending ≡ map (λ m. m.id) rest)
settled_in_order st s r =
    let o = Reach-Ordered st s r in
    let later = serial (1 + length o.done) o.left (run o.done st) in
    let split : serial 1 s.posted st ≡ s.settled ++ (answers s.responses ++ later) =
      ap (λ ops. serial 1 ops st) o.posted_lem
      ∙ serial-append 1 o.done o.left st
      ∙ ap (λ rs. rs ++ later) o.answers_lem
      ∙ append_assoc s.settled (answers s.responses) later in
    (
      answers s.responses ++ later,
      split,
      o.pending_lem
          ∙ ap (upto (suc (length s.settled))) (
              unsettled (length (answers s.responses)) o.left (run o.done st) (answers s.responses)
                (1 + length o.done) refl)
          ∙ ap (λ i. upto i (length (answers s.responses ++ later)))
              (sym (one_more (length s.settled)))
          ∙ sym (ids-serial 1 s.posted st s.settled (answers s.responses ++ later) split),
    )
