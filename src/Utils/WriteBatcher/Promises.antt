-- ===== src/Utils/WriteBatcher/Promises.antt =====
-- Which promises of write-batcher.ts are settled.
use baileys_session_manager.Base.{
  ℕ, ◌+◌, ◌≤◌, ◌<◌, ◌≡◌, ◌≢◌, Bool, true, Option, none, some, List, [], ◌∷◌, ◌++◌, ◌==◌,
  if◌then◌else◌, Text, arith, ℕ_discrete, dec_lt,
}
use baileys_session_manager.Base.Map.{Map}
use baileys_session_manager.Utils.WriteBatcher.{
  System, Running, Job, Step, writes, requests, timer_fires, skips, starts, succeeds, fails, clears,
  Reach, here, next, create, write, request, flush_now, settle, start, flushed, failed, optional,
}

-- How often a promise is in a list.
unfoldable pub count : ℕ → List ℕ → ℕ
count p [] = 0
count p (q ∷ qs) = (if q == p then 1 else 0) + count p qs

count-append : (p : ℕ) (xs ys : List ℕ) → count p (xs ++ ys) ≡ count p xs + count p ys
unfolding count
count-append p [] ys = omega arith
count-append p (x ∷ xs) ys = omega (arith, count-append p xs ys)

unfoldable pub in_job : ℕ → Job → ℕ
unfolding count
in_job p job = count p job.waiters + count p (optional job.caller)

unfoldable pub in_queue : ℕ → List Job → ℕ
unfolding in_job
in_queue p [] = 0
in_queue p (job ∷ jobs) = in_job p job + in_queue p jobs

in_queue-append : (p : ℕ) (xs ys : List Job) → in_queue p (xs ++ ys) ≡ in_queue p xs + in_queue p ys
unfolding in_queue
in_queue-append p [] ys = omega arith
in_queue-append p (x ∷ xs) ys = omega (arith, in_queue-append p xs ys)

abbrev pub in_running : ℕ → Option Running → ℕ
in_running p none = 0
in_running p (some r) = in_job p r.job

-- How often a promise is held by the batcher, by a job, or has been settled.
unfoldable pub held : ℕ → System → ℕ
held p s =
    count p s.batcher.flush_waiters
    + in_queue p s.queue
    + in_running p s.running
    + count p s.resolved
    + count p s.rejected

-- A step makes at most the promise `next`, and holds every other one no more often than before.
Step-held :
    {failing : Bool} {s t : System} (p : ℕ)
    → Step failing s t
    → (held p t ≤ held p s + (if s.next == p then 1 else 0))
      × (s.next ≤ t.next)
      × (p ≢ s.next → held p t ≤ held p s)
      × (t.next ≤ p → held p t ≤ held p s)
unfolding held write request flush_now settle start flushed failed count in_job in_queue
Step-held p (writes s key value) = ground (
  arith,
  count-append p s.batcher.flush_waiters (s.next ∷ []),
  in_queue-append p s.queue
      (record { waiters = s.batcher.flush_waiters; caller = some s.next } ∷ []),
)
Step-held p (requests s) = ground (
  arith,
  in_queue-append p s.queue
      (record { waiters = s.batcher.flush_waiters; caller = some s.next } ∷ []),
)
Step-held p (timer_fires s h) = ground (
  arith,
  in_queue-append p s.queue (record { waiters = s.batcher.flush_waiters; caller = none } ∷ []),
)
Step-held p (skips s job rest h q e) = ground (
  arith,
  count-append p s.resolved (job.waiters ++ optional job.caller),
  count-append p job.waiters (optional job.caller),
)
Step-held p (starts s job rest h q e) = ground arith
Step-held p (succeeds s r h) = ground (
  arith,
  count-append p s.resolved (r.job.waiters ++ optional r.job.caller),
  count-append p r.job.waiters (optional r.job.caller),
)
Step-held p (fails s r f h) = ground (arith, count-append p s.rejected (optional r.job.caller))
Step-held p (clears s) = ground arith

abbrev Fresh : System → Type 0
Fresh s = (p : ℕ) → (held p s ≤ 1) × (s.next ≤ p → held p s ≡ 0)

Step-Fresh : {failing : Bool} {s t : System} → Step failing s t → Fresh s → Fresh t
Step-Fresh {s = s} st f p =
    let (few, grows, same, later) = Step-held p st in
    let (one, unmade) = f p in
    elim (ℕ_discrete p s.next) [
      | yes made ↦ (ground (arith, unmade (omega arith), few), λ h. omega (arith, unmade, later))
      | no other ↦ (omega (arith, same other), λ h. omega (arith, unmade, later))
    ]

create-Fresh : (debounce_ms : ℕ) (stored : Map Text) → Fresh (create debounce_ms stored)
unfolding create held count in_queue
create-Fresh debounce_ms stored p = ground arith

Reach-Fresh : {failing : Bool} {s t : System} → Fresh s → Reach failing s t → Fresh t
Reach-Fresh f here = f
Reach-Fresh f (next r st) = Step-Fresh st (Reach-Fresh f r)

-- A promise that is made and is held nowhere is never held again.
Reach-forgotten :
    {failing : Bool} {s t : System} (p : ℕ)
    → p < s.next
    → held p s ≡ 0
    → Reach failing s t
    → (held p t ≡ 0) × (p < t.next)
Reach-forgotten p old gone here = (gone, old)
Reach-forgotten p old gone (next r st) =
    let (h, o) = Reach-forgotten p old gone r in
    let (_, grows, same, later) = Step-held p st in (omega (arith, same (omega arith)), omega arith)

-- If a flush throws, every promise among the waiters that it took over, as those of writes with a
-- debounce are, is neither resolved nor rejected, whatever happens afterwards. The caller of
-- `flushNow`, as a write without a debounce is, is no such waiter.
pub failed_never_settles :
    (debounce_ms : ℕ) (stored : Map Text) (s t : System) (r : Running) (p : ℕ)
    → Reach true (create debounce_ms stored) s
    → s.running ≡ some r
    → 0 < count p r.job.waiters
    → Reach true (failed r s) t
    → (count p t.resolved ≡ 0) × (count p t.rejected ≡ 0)
unfolding held in_job failed
failed_never_settles debounce_ms stored s t r p before run waits after =
    let (one, none_later) = Reach-Fresh (create-Fresh debounce_ms stored) before p in
    let held_once : held p (failed r s) ≡ 0 =
      ground (arith, count-append p s.rejected (optional r.job.caller)) in
    let old : p < s.next = elim (dec_lt p s.next) [
      | yes q ↦ q
      | no q ↦ absurd (ground (arith, none_later (omega arith)))
    ] in
    let (h, _) = Reach-forgotten p old held_once after in (omega (arith, h), omega (arith, h))
