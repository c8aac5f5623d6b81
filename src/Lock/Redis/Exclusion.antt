-- ===== src/Lock/Redis/Exclusion.antt =====
-- Any number of calls of `withLock` of redis-lock.ts for one key. A call is known by its token:
-- `randomUUID` gives no token twice.
use baileys_session_manager.Base.{
  ℕ, ◌+◌, ◌≤◌, ◌<◌, ◌≡◌, Bool, true, false, Option, some, if◌then◌else◌, Text, text_eq, text_eq_iff,
  arith, Bool-cases, inl, inr,
}
use baileys_session_manager.Lock.Redis.{LockServer, Laws, release}

-- A call waits for the lock, or holds it since it was acquired, or has ended.
pub data Phase : Type 0 where
  waiting : Phase
  holding : ℕ → Phase
  ended : Phase

pub record System (S : Type 0) : Type 0 where
  pub server : S
  pub now : ℕ
  pub phase : Text → Phase

abbrev pub update : Text → Phase → (Text → Phase) → Text → Phase
update token p f x = if text_eq token x then p else f x

module _ {S : Type 0} (r : LockServer S) (key : Text) (ttl : ℕ) where
  abbrev pub attempt : Text → System S → Bool × S
  attempt token s = r.set_nx_px s.now key token ttl s.server

  pub data Step : System S → System S → Type 0 where
    acquires :
        (s : System S) (token : Text)
        → s.phase token ≡ waiting
        → (attempt token s).0 ≡ true
        → Step s (record s {
          server = (attempt token s).1;
          phase = update token (holding s.now) s.phase;
        })
    retries :
        (s : System S) (token : Text)
        → s.phase token ≡ waiting
        → (attempt token s).0 ≡ false
        → Step s (record s { server = (attempt token s).1 })
    gives_up :
        (s : System S) (token : Text)
        → s.phase token ≡ waiting
        → Step s (record s { phase = update token ended s.phase })
    releases :
        (s : System S) (token : Text) (since : ℕ)
        → s.phase token ≡ holding since
        → Step s (record s {
          server = release r s.now key token s.server;
          phase = update token ended s.phase;
        })
    -- The release fails, and only the time to live frees the lock.
    release_fails :
        (s : System S) (token : Text) (since : ℕ)
        → s.phase token ≡ holding since
        → Step s (record s { phase = update token ended s.phase })
    passes : (s : System S) (ms : ℕ) → Step s (record s { now = s.now + ms })

  pub data Reach (s : System S) : System S → Type 0 where
    here : Reach s s
    next : {t u : System S} → Reach s t → Step t u → Reach s u

  module _ (owner : S → Text → ℕ → Option Text) (laws : Laws r owner) where
    -- The lock of a call that holds it stays until its time to live is over.
    abbrev Inv : System S → Type 0
    Inv s =
        (token : Text) (since later : ℕ)
        → s.phase token ≡ holding since
        → s.now ≤ later
        → later < since + ttl
        → owner s.server key later ≡ some token

    Step-Inv : {s t : System S} → Step s t → Inv s → Inv t
    unfolding release
    Step-Inv (acquires s token w got) i x since later h p q = elim (Bool-cases (text_eq token x)) [
      | inl same ↦
          let e : token ≡ x = (text_eq_iff token x).0 same in
          rw (← e) (laws.owner-set s.now key token ttl s.server later got p (ground arith))
      | inr other ↦
          let taken = i x since s.now (ground arith) (omega arith) (omega arith) in
          absurd (ground (arith, laws.set_taken s.now key token ttl s.server x taken))
    ]
    Step-Inv (retries s token w got) i x since later h p q =
        rw (laws.owner-set_refused s.now key token ttl s.server got) (i x since later h p q)
    Step-Inv (gives_up s token w) i x since later h p q = i x since later (ground arith) p q
    Step-Inv (releases s token old hold) i x since later h p q =
        let taken = i x since s.now (ground arith) (omega arith) (omega arith) in
        let other : text_eq x token ≡ false =
          ground (arith, text_eq_iff token x, text_eq_iff x token) in
        rw (laws.get_lem s.now key s.server, taken, other) (i x since later (ground arith) p q)
    Step-Inv (release_fails s token old hold) i x since later h p q =
        i x since later (ground arith) p q
    Step-Inv (passes s ms) i x since later h p q = i x since later h (omega arith) q

    Reach-Inv : {s t : System S} → Inv s → Reach s t → Inv t
    Reach-Inv i here = i
    Reach-Inv i (next w st) = Step-Inv st (Reach-Inv i w)

    -- Over a server that keeps its laws, however the calls and the clock interleave from a state
    -- where none holds the lock: two calls that hold it, neither for as long as the time to live,
    -- are one call.
    pub mutual_exclusion :
        (server : S) (now : ℕ) (s : System S) (a b : Text) (since_a since_b : ℕ)
        → Reach (record { server = server; now = now; phase = λ _. waiting }) s
        → s.phase a ≡ holding since_a
        → s.now < since_a + ttl
        → s.phase b ≡ holding since_b
        → s.now < since_b + ttl
        → a ≡ b
    mutual_exclusion server now s a b since_a since_b w ha ta hb tb =
        let i = Reach-Inv (λ token since later h p q. cc) w in
        let x = i a since_a s.now ha (omega arith) ta in
        let y = i b since_b s.now hb (omega arith) tb in cc (x, y)
