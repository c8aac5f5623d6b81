-- ===== src/Utils/Retry/Effects.antt =====
-- What a retried function of retry.ts does to a property of the state that waits and failures keep.
use baileys_session_manager.Base.{ℕ, zero, suc, ◌≡◌, refl, ◌∙◌, ap, Text}
use baileys_session_manager.Base.Exec.{Result, ok, error, Exec}
use baileys_session_manager.Utils.Retry.{RetryOptions, backoff, retry_loop, with_retry}

module _ {S A : Type 0} (sleep : ℕ → S → S) (fn : Exec S A) (I : S → Type 0)
    (slept : (ms : ℕ) (s : S) → I s → I (sleep ms s))
    (kept : (s : S) (e : Text) → (fn s).0 ≡ error e → I s → I (fn s).1) where
  -- A call that returns comes from an attempt on a state with the property; one that throws keeps
  -- it.
  abbrev pub Ended : Result A → S → Type 0
  Ended (ok a) t = (s' : S) × I s' × (fn s' ≡ (ok a, t))
  Ended (error e) t = I t

  loop-Ended :
      (min_delay max_delay left attempt : ℕ) (s : S)
      → I s
      → Ended
          (retry_loop sleep fn min_delay max_delay left attempt s).result
          (retry_loop sleep fn min_delay max_delay left attempt s).state
  unfolding retry_loop
  loop-Ended min_delay max_delay zero attempt s i = go (fn s) refl
    where
      go :
          (out : Result A × S)
          → fn s ≡ out
          → Ended
              (retry_loop sleep fn min_delay max_delay zero attempt s).result
              (retry_loop sleep fn min_delay max_delay zero attempt s).state
      go (ok a, t) e = rw e (s, i, e)
      go (error x, t) e = rw e (rw e at (kept s x (ap (λ o. o.0) e) i))
  loop-Ended min_delay max_delay (suc left) attempt s i =
      go (loop-Ended min_delay max_delay left (suc attempt)) (fn s) refl
    where
      go :
          ((u : S)
            → I u
            → Ended
                (retry_loop sleep fn min_delay max_delay left (suc attempt) u).result
                (retry_loop sleep fn min_delay max_delay left (suc attempt) u).state)
          → (out : Result A × S) → fn s ≡ out
          → Ended
              (retry_loop sleep fn min_delay max_delay (suc left) attempt s).result
              (retry_loop sleep fn min_delay max_delay (suc left) attempt s).state
      go ih (ok a, t) e = rw e (s, i, e)
      go ih (error x, t) e =
          let u = sleep (backoff min_delay max_delay attempt) t in
          rw e (ih u (slept _ t (rw e at (kept s x (ap (λ o. o.0) e) i))))

  pub with_retry-Ended :
      (options : RetryOptions) (s : S)
      → I s
      → Ended (with_retry sleep fn options s).result (with_retry sleep fn options s).state
  unfolding with_retry
  with_retry-Ended options s i = loop-Ended _ _ _ 0 s i

-- The property that a part of the state is what it was.
module _ {S A X : Type 0} (sleep : ℕ → S → S) (fn : Exec S A) (shown : S → X)
    (slept : (ms : ℕ) (s : S) → shown (sleep ms s) ≡ shown s)
    (unhurt : (s : S) (e : Text) → (fn s).0 ≡ error e → shown (fn s).1 ≡ shown s) where
  abbrev pub Outcome : S → Result A → S → Type 0
  Outcome s (ok a) t = (s' : S) × (shown s' ≡ shown s) × (fn s' ≡ (ok a, t))
  Outcome s (error e) t = shown t ≡ shown s

  Ended-Outcome :
      (s : S) (r : Result A) (t : S)
      → Ended sleep fn
          (λ u. shown u ≡ shown s)
          (λ ms u i. slept ms u ∙ i)
          (λ u e h i. unhurt u e h ∙ i)
          r
          t
      → Outcome s r t
  Ended-Outcome s (ok a) t h = h
  Ended-Outcome s (error e) t h = h

  pub with_retry-Outcome :
      (options : RetryOptions) (s : S)
      → Outcome s (with_retry sleep fn options s).result (with_retry sleep fn options s).state
  with_retry-Outcome options s = Ended-Outcome s _ _ (
      with_retry-Ended sleep fn (λ u. shown u ≡ shown s) (λ ms u i. slept ms u ∙ i)
        (λ u e h i. unhurt u e h ∙ i) options s refl)
