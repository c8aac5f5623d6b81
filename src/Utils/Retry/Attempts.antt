-- ===== src/Utils/Retry/Attempts.antt =====
-- When the retries of retry.ts succeed, when they give up, and how long they wait.
use native.Mathlib.Nat.{pow-zero, pow-suc}
use baileys_session_manager.Base.{
  ap, map, ℕ, zero, suc, ◌*◌, ◌≤◌, ◌<◌, min, ◌≡◌, refl, List, [], ◌∷◌, length, Text, All, arith,
}
use baileys_session_manager.Base.Exec.{ok, error, Exec}
use baileys_session_manager.Utils.Retry.{
  RetryOptions, or_default, default_retries, default_min_delay_ms, default_max_delay_ms, backoff,
  retry_loop, with_retry,
}

abbrev pub retries_of : RetryOptions → ℕ
retries_of o = or_default o.retries default_retries

abbrev pub min_delay_of : RetryOptions → ℕ
min_delay_of o = or_default o.min_delay_ms default_min_delay_ms

abbrev pub max_delay_of : RetryOptions → ℕ
max_delay_of o = or_default o.max_delay_ms default_max_delay_ms

-- The delay doubles with each attempt, up to the limit.
pub backoff_doubles :
    (min_delay max_delay attempt : ℕ)
    → (backoff min_delay max_delay 0 ≡ min min_delay max_delay)
      × (backoff min_delay max_delay (suc attempt)
          ≡ min (2 * backoff min_delay max_delay attempt) max_delay)
unfolding backoff
backoff_doubles min_delay max_delay attempt =
    omega (arith, pow-zero 2, pow-suc 2 attempt, ap (λ (x : ℕ). min_delay * x) (pow-suc 2 attempt))

module _ {ℓ κ} {S : Type ℓ} {A : Type κ} (sleep : ℕ → S → S) (fn : Exec S A) where
  -- The state in which the attempt `attempt + n` starts, if those from `attempt` on fail.
  unfoldable pub start_of : ℕ → ℕ → ℕ → S → ℕ → S
  start_of min_delay max_delay attempt s zero = s
  start_of min_delay max_delay attempt s (suc n) =
      start_of min_delay max_delay (suc attempt)
        (sleep (backoff min_delay max_delay attempt) (fn s).1) n

  -- The delays that are waited from the attempt `attempt` on, `n` of them.
  unfoldable pub delays : ℕ → ℕ → ℕ → ℕ → List ℕ
  delays min_delay max_delay attempt zero = []
  delays min_delay max_delay attempt (suc n) =
      backoff min_delay max_delay attempt ∷ delays min_delay max_delay (suc attempt) n

  module _ (min_delay max_delay : ℕ) where
    -- The attempt `attempt + i` throws, if those from `attempt` on do.
    abbrev pub Fails : ℕ → S → ℕ → Type κ
    Fails attempt s i = (e : Text) × ((fn (start_of min_delay max_delay attempt s i)).0 ≡ error e)

    loop_succeeds :
        (left attempt n : ℕ) (s t : S) (a : A)
        → n ≤ left
        → ((i : ℕ) → i < n → Fails attempt s i)
        → fn (start_of min_delay max_delay attempt s n) ≡ (ok a, t)
        → ((retry_loop sleep fn min_delay max_delay left attempt s).result ≡ ok a)
          × ((retry_loop sleep fn min_delay max_delay left attempt s).state ≡ t)
          × (map (λ w. w.delay) (retry_loop sleep fn min_delay max_delay left attempt s).warnings
              ≡ delays min_delay max_delay attempt n)
    unfolding retry_loop start_of delays
    loop_succeeds zero attempt zero s t a h fails done = rw done (refl, refl, refl)
    loop_succeeds (suc left) attempt zero s t a h fails done = rw done (refl, refl, refl)
    loop_succeeds zero attempt (suc n) s t a h fails done = absurd (omega arith)
    loop_succeeds (suc left) attempt (suc n) s t a h fails done =
        let (e, failed) = fails 0 (omega arith) in
        let ih =
          loop_succeeds left (suc attempt) n (sleep (backoff min_delay max_delay attempt) (fn s).1)
            t a (omega arith) (λ i p. fails (suc i) (omega arith)) done in
        ground (arith, failed, ih)

    loop_gives_up :
        (left attempt : ℕ) (s t : S) (e : Text)
        → ((i : ℕ) → i < left → Fails attempt s i)
        → fn (start_of min_delay max_delay attempt s left) ≡ (error e, t)
        → ((retry_loop sleep fn min_delay max_delay left attempt s).result ≡ error e)
          × ((retry_loop sleep fn min_delay max_delay left attempt s).state ≡ t)
          × (map (λ w. w.delay) (retry_loop sleep fn min_delay max_delay left attempt s).warnings
              ≡ delays min_delay max_delay attempt left)
    unfolding retry_loop start_of delays
    loop_gives_up zero attempt s t e fails done = rw done (refl, refl, refl)
    loop_gives_up (suc left) attempt s t e fails done =
        let (e', failed) = fails 0 (omega arith) in
        let s' = sleep (backoff min_delay max_delay attempt) (fn s).1 in
        let ih =
          loop_gives_up left (suc attempt) s' t e (λ i p. fails (suc i) (omega arith)) done in
        ground (arith, failed, ih)

    loop_waits :
        (left attempt : ℕ) (s : S)
        → (length (retry_loop sleep fn min_delay max_delay left attempt s).warnings ≤ left)
          × All
              (λ w. w.delay ≤ max_delay)
              (retry_loop sleep fn min_delay max_delay left attempt s).warnings
    unfolding retry_loop backoff
    loop_waits zero attempt s = ground arith
    loop_waits (suc left) attempt s =
        let s' = sleep (backoff min_delay max_delay attempt) (fn s).1 in
        ground (arith, loop_waits left (suc attempt) s')

  module _ (options : RetryOptions) where
    abbrev pub start : S → ℕ → S
    start = start_of (min_delay_of options) (max_delay_of options) 0

    -- If the first `n` attempts throw and the next one, which is among the retries, returns, then
    -- the call returns what that attempt returned, after the delays of the `n` attempts.
    pub with_retry_succeeds :
        (n : ℕ) (s t : S) (a : A)
        → n ≤ retries_of options
        → ((i : ℕ) → i < n → Fails (min_delay_of options) (max_delay_of options) 0 s i)
        → fn (start s n) ≡ (ok a, t)
        → ((with_retry sleep fn options s).result ≡ ok a)
          × ((with_retry sleep fn options s).state ≡ t)
          × (map (λ w. w.delay) (with_retry sleep fn options s).warnings
              ≡ delays (min_delay_of options) (max_delay_of options) 0 n)
    unfolding with_retry
    with_retry_succeeds n s t a = loop_succeeds _ _ (retries_of options) 0 n s t a

    -- If the first attempt and every retry throw, the call throws the error of the last one.
    pub with_retry_gives_up :
        (s t : S) (e : Text)
        → ((i : ℕ)
            → i < retries_of options
            → Fails (min_delay_of options) (max_delay_of options) 0 s i)
        → fn (start s (retries_of options)) ≡ (error e, t)
        → ((with_retry sleep fn options s).result ≡ error e)
          × ((with_retry sleep fn options s).state ≡ t)
          × (map (λ w. w.delay) (with_retry sleep fn options s).warnings
              ≡ delays (min_delay_of options) (max_delay_of options) 0 (retries_of options))
    unfolding with_retry
    with_retry_gives_up s t e = loop_gives_up _ _ (retries_of options) 0 s t e

    -- Whatever the retried function does, at most the configured number of retries is made, and
    -- no wait is longer than the limit.
    pub with_retry_waits :
        (s : S)
        → (length (with_retry sleep fn options s).warnings ≤ retries_of options)
          × All (λ w. w.delay ≤ max_delay_of options) (with_retry sleep fn options s).warnings
    unfolding with_retry
    with_retry_waits s = loop_waits _ _ (retries_of options) 0 s
