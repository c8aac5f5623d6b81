-- ===== src/Adapters/Sqlite/Messages/Death.antt =====
-- What is left of the calls of the SQLite adapter when its thread has died.
use baileys_session_manager.Base.{
  ◌≡◌, ◌≢◌, Text, refl, ap, ◌∙◌, some, ◌++◌, [], ◌∷◌, inl, inr, true, arith,
}
use baileys_session_manager.Adapters.Sqlite.Worker.{Op}
use baileys_session_manager.Adapters.Sqlite.Messages.{
  Ready, failed, System, Step, Reach, call, ensure_worker, with_worker, spawn, post, ended, here,
  next, calls, posts, refuses, starts, fails_to_start, works, receives, dies,
}

-- The thread has ended, not because it failed to start, and its messages have arrived.
abbrev pub IsDead : System → Type 0
IsDead s =
    (s.thread ≡ ended)
    × (r : Ready) × (s.adapter.ready ≡ some r)
    × ((x : Text) → r ≢ failed x)
    × (s.responses ≡ [])

abbrev IsSame : System → System → Type 0
IsSame s t = (t.settled ≡ s.settled) × (t.refused ≡ s.refused)

-- A call after the first does not make another worker.
pub call_ready :
    (op : Op) (s : System) (r : Ready)
    → s.adapter.ready ≡ some r
    → call op s ≡ record s { waiting = s.waiting ++ op ∷ [] }
unfolding call ensure_worker with_worker spawn
call_ready op s r k =
    ap
      (λ x. record s {
        adapter = with_worker x s.adapter;
        waiting = s.waiting ++ op ∷ [];
        thread = spawn x s.thread;
      })
      k

Step-IsDead : {s t : System} → Step true s t → IsDead s → IsDead t × IsSame s t
unfolding post
Step-IsDead (calls s op) (e, r, k, n, a) = rw (call_ready op s r k) ((e, r, k, n, a), (refl, refl))
Step-IsDead (posts s op rest w k') (e, r, k, n, a) = ((e, r, k, n, a), (refl, refl))
Step-IsDead (refuses s op rest x w k') (e, r, k, n, a) = absurd (n x (ground (arith, k, k')))
Step-IsDead (starts s l) (e, r, k, n, a) = absurd (ground (arith, e, l))
Step-IsDead (fails_to_start s x l) (e, r, k, n, a) = absurd (ground (arith, e, l))
Step-IsDead (works s q rest w l) (e, r, k, n, a) = absurd (ground (arith, e, l))
Step-IsDead (receives s m rest w) (e, r, k, n, a) = absurd (ground (arith, a, w))
Step-IsDead (dies s x d (inl l)) (e, r, k, n, a) = absurd (ground (arith, e, l))
Step-IsDead (dies s x d (inr l)) (e, r, k, n, a) = absurd (ground (arith, e, l))

-- Once the thread has ended, its messages have arrived and its start is not known to have failed, no
-- promise of a call is resolved or rejected any more, whatever is called: neither one that has a
-- request nor one that waits for the start.
pub dead_never_settles :
    (s t : System) → IsDead s → Reach true s t → (t.settled ≡ s.settled) × (t.refused ≡ s.refused)
dead_never_settles s t d r = (go r).1
  where
    go : {t : System} → Reach true s t → IsDead t × IsSame s t
    go here = (d, (refl, refl))
    go (next r step) =
        let (dead, same) = go r in
        let (dead', same') = Step-IsDead step dead in (dead', (same'.0 ∙ same.0, same'.1 ∙ same.1))
