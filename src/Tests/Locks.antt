-- ===== src/Tests/Locks.antt =====
-- The locks at concrete inputs, with a server that is a map of holders and the ends of their time.
use baileys_session_manager.Base.{
  ℕ, ◌+◌, ◌≡◌, ◌≤◌, ◌<◌, ◌↔◌, refl, Bool, true, false, Option, none, some, [], ◌∷◌, Text, text,
  text_eq, text_eq_refl, ltb, if◌then◌else◌, arith, Option-cases, inl, inr, ap, ◌∙◌,
}
use baileys_session_manager.Base.Map.{Map, lookup, insert, remove, lookup-insert, lookup-remove}
use baileys_session_manager.Lock.Redis.{LockServer, Laws, acquire_loop}
use baileys_session_manager.Lock.Redis.Waiting.{Ends, acquire_loop-Ends}
use baileys_session_manager.Lock.Redis.Exclusion.{
  System, Reach, waiting, holding, update, here, next, acquires, passes, mutual_exclusion,
}
use baileys_session_manager.Lock.Mutex
use baileys_session_manager.Lock.Mutex.{LocalMutexLock, get_mutex, get_mutex_iff, create-IsValid}

abbrev Held : Type 0
Held = Map (Text × ℕ)

abbrev live : ℕ → Option (Text × ℕ) → Option Text
live now none = none
live now (some (token, end_of)) = if ltb now end_of then some token else none

abbrev owner : Held → Text → ℕ → Option Text
owner s key now = live now (lookup key s)

abbrev taken : Text → Text → ℕ → Held → Option Text → Bool × Held
taken key token end_of s none = (true, insert key (token, end_of) s)
taken key token end_of s (some other) = (false, s)

abbrev server : LockServer Held
server = record {
  set_nx_px = λ now key token ttl s. taken key token (now + ttl) s (owner s key now);
  get = λ now key s. owner s key now;
  del = λ key s. remove key s;
}

server-owner-set :
    (now : ℕ) (key token : Text) (ttl : ℕ) (s : Held) (later : ℕ)
    → (server.set_nx_px now key token ttl s).0 ≡ true
    → now ≤ later
    → later < now + ttl
    → owner (server.set_nx_px now key token ttl s).1 key later ≡ some token
server-owner-set now key token ttl s later h p q = elim (Option-cases (owner s key now)) [
  | inl free ↦
      rw free (rw (lookup-insert key key (token, now + ttl) s, text_eq_refl key) (ground arith))
  | inr (other, busy) ↦ absurd (ground (arith, busy, h))
]

server-refused :
    (now : ℕ) (key token : Text) (ttl : ℕ) (s : Held)
    → (server.set_nx_px now key token ttl s).0 ≡ false
    → owner (server.set_nx_px now key token ttl s).1 ≡ owner s
server-refused now key token ttl s h = elim (Option-cases (owner s key now)) [
  | inl free ↦ absurd (ground (arith, free, h))
  | inr (other, busy) ↦ rw busy refl
]

server-Laws : Laws server owner
server-Laws = record {
  set_free = λ now key token ttl s free. ap (λ o. (taken key token (now + ttl) s o).0) free;
  set_taken = λ now key token ttl s other busy. ap (λ o. (taken key token (now + ttl) s o).0) busy;
  owner-set = server-owner-set;
  owner-set_refused = server-refused;
  get_lem = λ now key s. refl;
  owner-del = λ key s now.
      ap (live now)
        (lookup-remove key key s ∙ ap (λ b. if b then none else lookup key s) (text_eq_refl key));
}

abbrev key : Text
key = text "k"

abbrev token : Text
token = text "t"

abbrev begin : System Held
begin = record { server = []; now = 0; phase = λ _. waiting }

abbrev acquired_at : System Held
acquired_at = record begin {
  server = insert key (token, 10) [];
  phase = update token (holding 0) begin.phase;
}

got : Reach server key 10 begin (record acquired_at { now = 7 })
unfolding lookup insert
got = next (next here (acquires begin token refl refl)) (passes acquired_at 7)

mutual_exclusion_example : token ≡ token
unfolding text_eq
mutual_exclusion_example =
    mutual_exclusion server key 10 owner server-Laws [] 0 (record acquired_at { now = 7 }) token
      token 0 0 got refl (omega arith) refl (omega arith)

-- Another call holds the lock until 120.
abbrev busy : Held
busy = (key, (text "other", 120)) ∷ []

abbrev sleep : ℕ → Held → ℕ × Held
sleep now s = (now + 50, s)

acquire_loop-Ends_example :
    Ends server owner server-Laws key token 10 1000
      (acquire_loop server sleep 30 key token 10 1000 0 busy)
acquire_loop-Ends_example =
    acquire_loop-Ends server owner server-Laws sleep (λ now s. omega arith) 30 key token 10 1000 0
      busy (omega arith)

get_mutex_iff_example :
    ((get_mutex (text "a") (get_mutex (text "b") (get_mutex (text "a") Mutex.create).1).1).0
      ≡ (get_mutex (text "a") Mutex.create).0)
    ↔ (text "a" ≡ text "a")
get_mutex_iff_example = get_mutex_iff (text "a") (text "a") (text "b") Mutex.create create-IsValid
