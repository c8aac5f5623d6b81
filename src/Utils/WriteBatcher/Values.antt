-- ===== src/Utils/WriteBatcher/Values.antt =====
-- Which values the batcher of write-batcher.ts has written.
use baileys_session_manager.Base.{
  ℕ, ◌≡◌, refl, false, Option, none, some, [], ◌∷◌, ◌==◌, Text, text_eq_iff, arith, Bool-cases, inl,
  inr,
}
use baileys_session_manager.Base.Map.{Map, lookup, insert, Distinct, lookup-insert, insert-Distinct}
use baileys_session_manager.Utils.WriteBatcher.{
  System, Running, Step, writes, requests, timer_fires, skips, starts, succeeds, fails, clears,
  Reach, here, next, create, write, request, flush_now, settle, start, store_entries, flushed,
  failed,
}

-- The first of two answers.
abbrev pub over : Option Text → Option Text → Option Text
over none b = b
over (some a) b = some a

abbrev pub entries_of : Option Running → Map Text
entries_of none = []
entries_of (some r) = r.entries

lookup-store_entries :
    (k : Text) (es m : Map Text)
    → Distinct es
    → lookup k (store_entries es m) ≡ over (lookup k es) (lookup k m)
unfolding store_entries lookup
lookup-store_entries k [] m d = refl
lookup-store_entries k ((j, v) ∷ es) m d =
    ground
      (arith, lookup-store_entries k es (insert j v m) d.1, lookup-insert j k v m, text_eq_iff j k)

-- For every key, the value of the last write is pending, or else in the flush that runs, or else
-- stored.
pub record Inv (s : System) : Type 0 where
  pub distinct : Distinct s.batcher.pending
  pub distinct_running : Distinct (entries_of s.running)
  pub last :
      (k : Text)
      → lookup k s.intended
        ≡ over
            (lookup k s.batcher.pending)
            (over (lookup k (entries_of s.running)) (lookup k s.stored))

pub Step-Inv : {s t : System} → Step false s t → Inv s → Inv t
unfolding write request flush_now settle start flushed failed lookup
Step-Inv (writes s key value) i = elim (Bool-cases (s.batcher.debounce_ms == 0)) [
  | inl now ↦ rw now (record {
    distinct = insert-Distinct key value s.batcher.pending i.distinct;
    distinct_running = i.distinct_running;
    last = λ k. ground (
      arith,
      i.last k,
      lookup-insert key k value s.intended,
      lookup-insert key k value s.batcher.pending,
    );
  })
  | inr later ↦ rw later (record {
    distinct = insert-Distinct key value s.batcher.pending i.distinct;
    distinct_running = i.distinct_running;
    last = λ k. ground (
      arith,
      i.last k,
      lookup-insert key k value s.intended,
      lookup-insert key k value s.batcher.pending,
    );
  })
]
Step-Inv (requests s) i = record {
  distinct = i.distinct;
  distinct_running = i.distinct_running;
  last = i.last;
}
Step-Inv (timer_fires s h) i = record {
  distinct = i.distinct;
  distinct_running = i.distinct_running;
  last = i.last;
}
Step-Inv (skips s job rest h q p) i = record {
  distinct = i.distinct;
  distinct_running = i.distinct_running;
  last = i.last;
}
Step-Inv (starts s job rest h q p) i = record {
  distinct = tt;
  distinct_running = i.distinct;
  last = λ k. ground (arith, i.last k);
}
Step-Inv (succeeds s r h) i = record {
  distinct = i.distinct;
  distinct_running = tt;
  last = λ k.
      ground
        (arith, i.last k, lookup-store_entries k r.entries s.stored (rw h at i.distinct_running));
}
Step-Inv (fails s r f h) i = absurd (ground arith)
Step-Inv (clears s) i = record {
  distinct = i.distinct;
  distinct_running = i.distinct_running;
  last = i.last;
}

Reach-Inv : {s t : System} → Inv s → Reach false s t → Inv t
Reach-Inv i here = i
Reach-Inv i (next r st) = Step-Inv st (Reach-Inv i r)

create-Inv : (debounce_ms : ℕ) (stored : Map Text) → Inv (create debounce_ms stored)
unfolding create lookup
create-Inv debounce_ms stored = record { distinct = tt; distinct_running = tt; last = λ k. refl }

-- As long as no flush throws, nothing is lost and the last write wins, in whatever order writes,
-- timers, tasks and flushes interleave: once nothing is pending and no flush runs, every key has
-- the value of its last write, or the one that was stored at the start.
pub last_write_wins :
    (debounce_ms : ℕ) (stored : Map Text) (s : System) (k : Text)
    → Reach false (create debounce_ms stored) s
    → s.batcher.pending ≡ []
    → s.running ≡ none
    → lookup k s.stored ≡ lookup k s.intended
unfolding lookup
last_write_wins debounce_ms stored s k r p q =
    let i = Reach-Inv (create-Inv debounce_ms stored) r in ground (arith, i.last k)
