-- ===== src/Utils/Retry.antt =====
-- src/utils/retry.ts: `withRetry`, over any state that the retried function works on.
pub mod Attempts
pub mod Effects
use baileys_session_manager.Base.{
  ℕ, zero, suc, ◌+◌, ◌*◌, ◌^◌, min, Option, none, some, List, [], ◌∷◌, Text,
}
use baileys_session_manager.Base.Exec.{Result, ok, error, Exec}

-- `RetryOptions`, each field optional.
pub record RetryOptions : Type 0 where
  pub retries : Option ℕ
  pub min_delay_ms : Option ℕ
  pub max_delay_ms : Option ℕ

abbrev pub default_retries : ℕ
default_retries = 3

abbrev pub default_min_delay_ms : ℕ
default_min_delay_ms = 200

abbrev pub default_max_delay_ms : ℕ
default_max_delay_ms = 5000

abbrev pub or_default : Option ℕ → ℕ → ℕ
or_default none d = d
or_default (some n) d = n

-- `Math.min(minDelayMs * 2 ** attempt, maxDelayMs)`
unfoldable pub backoff : ℕ → ℕ → ℕ → ℕ
backoff min_delay_ms max_delay_ms attempt = min (min_delay_ms * 2 ^ attempt) max_delay_ms

-- A warning of the log, written before the wait that it announces.
pub record Warning : Type 0 where
  pub delay : ℕ
  pub attempts_left : ℕ
  pub message : Text

-- How a call ends: its value or its error, the state that it leaves, and its warnings in order.
pub record Ending {ℓ κ} (S : Type ℓ) (A : Type κ) : Type (ℓ ⊔ κ) where
  pub result : Result A
  pub state : S
  pub warnings : List Warning

abbrev pub warned {ℓ κ} : {S : Type ℓ} {A : Type κ} → Warning → Ending S A → Ending S A
warned w r = record r { warnings = w ∷ r.warnings }

-- `sleep delay` is what else happens to the state while the call waits.
module _ {ℓ κ} {S : Type ℓ} {A : Type κ} (sleep : ℕ → S → S) (fn : Exec S A) where
  -- The `try`/`catch` of one round: `next` is the round after the wait.
  abbrev pub caught : (Text → S → Ending S A) → Result A × S → Ending S A
  caught handler (ok a, s) = record { result = ok a; state = s; warnings = [] }
  caught handler (error e, s) = handler e s

  -- The `for` loop from the round `attempt` on; `attempts_left` is `retries - attempt`.
  unfoldable pub retry_loop : ℕ → ℕ → ℕ → ℕ → S → Ending S A
  unfolding backoff
  retry_loop min_delay max_delay zero attempt s =
      caught (λ e s'. record { result = error e; state = s'; warnings = [] }) (fn s)
  retry_loop min_delay max_delay (suc left) attempt s =
      caught
        (λ e s'.
          warned
            (record {
              delay = backoff min_delay max_delay attempt;
              attempts_left = suc left;
              message = e;
            })
            (retry_loop min_delay max_delay left (suc attempt)
              (sleep (backoff min_delay max_delay attempt) s')))
        (fn s)

  unfoldable pub with_retry : RetryOptions → S → Ending S A
  unfolding retry_loop
  with_retry options s =
      retry_loop (or_default options.min_delay_ms default_min_delay_ms)
        (or_default options.max_delay_ms default_max_delay_ms)
        (or_default options.retries default_retries) 0 s
