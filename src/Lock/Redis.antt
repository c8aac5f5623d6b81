-- ===== src/Lock/Redis.antt =====
-- src/lock/redis-lock.ts: the distributed lock, over any server that keeps the laws of
-- `LockServer`.
pub mod Waiting
pub mod Exclusion
use baileys_session_manager.Base.{
  ℕ, zero, suc, ◌+◌, ◌≤◌, ◌<◌, ◌≡◌, ◌≢◌, Bool, true, false, Option, none, some, [], ◌++◌, leb,
  if◌then◌else◌, Text, text, text_eq,
}

abbrev pub default_ttl_ms : ℕ
default_ttl_ms = 10_000

abbrev pub default_retry_delay_ms : ℕ
default_retry_delay_ms = 50

abbrev pub default_max_wait_ms : ℕ
default_max_wait_ms = 10_000

abbrev pub lock_key : Text → Text
lock_key key = text "baileys-auth:lock:" ++ key

-- The commands that are used, at the time of the server: `set_nx_px` is `SET key value NX PX ttl`,
-- and tells whether it answered OK. `S` is the state of the server.
pub record LockServer (S : Type 0) : Type 0 where
  pub set_nx_px : ℕ → Text → Text → ℕ → S → Bool × S
  pub get : ℕ → Text → S → Option Text
  pub del : Text → S → S

-- The documented behaviour of the commands. `owner s key now` is the value that the key has at
-- `now`, if nothing is done until then.
pub record Laws {S : Type 0} (r : LockServer S) (owner : S → Text → ℕ → Option Text) : Type 0 where
  pub set_free :
      (now : ℕ) (key token : Text) (ttl : ℕ) (s : S)
      → owner s key now ≡ none
      → (r.set_nx_px now key token ttl s).0 ≡ true
  pub set_taken :
      (now : ℕ) (key token : Text) (ttl : ℕ) (s : S) (other : Text)
      → owner s key now ≡ some other
      → (r.set_nx_px now key token ttl s).0 ≡ false
  pub owner-set :
      (now : ℕ) (key token : Text) (ttl : ℕ) (s : S) (later : ℕ)
      → (r.set_nx_px now key token ttl s).0 ≡ true
      → now ≤ later
      → later < now + ttl
      → owner (r.set_nx_px now key token ttl s).1 key later ≡ some token
  pub owner-set_refused :
      (now : ℕ) (key token : Text) (ttl : ℕ) (s : S)
      → (r.set_nx_px now key token ttl s).0 ≡ false
      → owner (r.set_nx_px now key token ttl s).1 ≡ owner s
  pub get_lem : (now : ℕ) (key : Text) (s : S) → r.get now key s ≡ owner s key now
  pub owner-del : (key : Text) (s : S) (now : ℕ) → owner (r.del key s) key now ≡ none

-- The comparison of the script: does `GET` answer with the token?
abbrev pub is_own : Text → Option Text → Bool
is_own token none = false
is_own token (some holder) = text_eq holder token

module _ {S : Type 0} (r : LockServer S) where
  -- `RELEASE_SCRIPT`, which the server runs as one step.
  unfoldable pub release : ℕ → Text → Text → S → S
  release now key token s = if is_own token (r.get now key s) then r.del key s else s

  -- How the wait for the lock ends, and when.
  pub data Wait : Type 0 where
    acquired : ℕ → S → Wait
    timed_out : ℕ → S → Wait

  -- The `while (true)` loop. `sleep` is the wait of 50 ms: the new time, and what others did to
  -- the server. `none` means that the fuel ran out.
  unfoldable pub acquire_loop : (ℕ → S → ℕ × S) → ℕ → Text → Text → ℕ → ℕ → ℕ → S → Option Wait
  acquire_loop sleep zero key token ttl deadline now s = none
  acquire_loop sleep (suc fuel) key token ttl deadline now s =
      elim (r.set_nx_px now key token ttl s).0 [
        | true ↦ some (acquired now (r.set_nx_px now key token ttl s).1)
        | false ↦ elim (leb deadline now) [
          | true ↦ some (timed_out now (r.set_nx_px now key token ttl s).1)
          | false ↦
              acquire_loop sleep fuel key token ttl deadline
                (sleep now (r.set_nx_px now key token ttl s).1).0
                (sleep now (r.set_nx_px now key token ttl s).1).1
        ]
      ]
