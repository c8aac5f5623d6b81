-- ===== src/Lock/Redis/Waiting.antt =====
-- How the wait for the lock of redis-lock.ts ends.
use baileys_session_manager.Base.{
  ℕ, zero, suc, ◌+◌, ◌-◌, ◌/◌, ◌≤◌, ◌<◌, ◌≡◌, inl, inr, false, Option, some, leb, Text, arith,
  Bool-cases,
}
use baileys_session_manager.Lock.Redis.{
  LockServer, Laws, acquire_loop, Wait, acquired, timed_out, default_retry_delay_ms,
}

leb-false : (a b : ℕ) → leb a b ≡ false → b < a
leb-false a b h = ground arith

module _ {S : Type 0} (r : LockServer S) (owner : S → Text → ℕ → Option Text)
    (laws : Laws r owner) where
  -- The wait is over by the lock, which the call then owns for its time to live, or by the
  -- deadline.
  pub data Ends (key token : Text) (ttl deadline : ℕ) : Option (Wait r) → Type 0 where
    owns :
        (at : ℕ) (s : S)
        → ((later : ℕ) → at ≤ later → later < at + ttl → owner s key later ≡ some token)
        → Ends key token ttl deadline (some (acquired at s))
    late : (at : ℕ) (s : S) → deadline ≤ at → Ends key token ttl deadline (some (timed_out at s))

  -- Over a server that keeps its laws: if each wait takes at least the delay of 50 ms, and the
  -- fuel exceeds the delays, rounded up, until the deadline, then the loop ends, whatever others
  -- do with the lock, and the call owns the lock for its time to live if nothing more is done with
  -- it, or the deadline has passed.
  pub acquire_loop-Ends :
      (sleep : ℕ → S → ℕ × S)
      → ((now : ℕ) (s : S) → now + default_retry_delay_ms ≤ (sleep now s).0)
      → (fuel : ℕ) (key token : Text) (ttl deadline now : ℕ) (s : S)
      → (deadline - now + 49) / default_retry_delay_ms < fuel
      → Ends key token ttl deadline (acquire_loop r sleep fuel key token ttl deadline now s)
  unfolding acquire_loop
  acquire_loop-Ends sleep wait zero key token ttl deadline now s h = absurd (omega arith)
  acquire_loop-Ends sleep wait (suc fuel) key token ttl deadline now s h =
      elim (Bool-cases (r.set_nx_px now key token ttl s).0) [
        | inl got ↦
            rw (got, acquire_loop)
              (owns now _ (λ later p q. laws.owner-set now key token ttl s later got p q))
        | inr refused ↦ elim (Bool-cases (leb deadline now)) [
          | inl over ↦ rw (refused, acquire_loop, over) (late now _ (ground arith))
          | inr more ↦
              let s' = (r.set_nx_px now key token ttl s).1 in
              rw (refused, acquire_loop, more)
                (acquire_loop-Ends sleep wait fuel key token ttl deadline (sleep now s').0
                  (sleep now s').1 (omega (arith, wait now s', leb-false deadline now more)))
        ]
      ]
