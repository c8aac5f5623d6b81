-- ===== src/Adapters/Firebase/Steps.antt =====
-- What calls that are made again and again do to what is stored, for the adapters of Firebase.
use baileys_session_manager.Base.{ℕ, ◌≡◌, ◌⊎◌, refl, ap, sym, ◌∙◌, inl, inr, Option, Text, arith}
use baileys_session_manager.Base.Exec.{Result, ok, error, Exec, throw}
use baileys_session_manager.Adapter.{Failed}
use baileys_session_manager.Utils.Retry.{RetryOptions}
use baileys_session_manager.Utils.Retry.Effects.{
  Ended, with_retry-Ended, Outcome, with_retry-Outcome,
}
use baileys_session_manager.Adapters.Base.{base_with_retry}
use baileys_session_manager.Adapters.Firebase.{Opened, client, client-cases, slept, retried, on_app}

module _ {S X : Type 0} (stored : S → X) where
  -- What is stored in a state of the adapter.
  abbrev pub held : Opened S → X
  held c = stored c.state

module _ {S X A : Type 0} (stored : S → X) (sleep : ℕ → S → S) (message : Text)
    (options : RetryOptions) (read : Exec S A)
    (stored-sleep : (ms : ℕ) (s : S) → stored (sleep ms s) ≡ stored s)
    (stored-read : (s : S) → stored (read s).1 ≡ stored s) where
  held-client : (c : Opened S) → held stored (client message read c).1 ≡ held stored c
  held-client c = elim (client-cases message read c) [
    | inl there ↦ rw there (stored-read c.state)
    | inr missing ↦ rw missing refl
  ]

  client_read :
      (c : Opened S) (a : A) (d : Opened S)
      → client message read c ≡ (ok a, d)
      → (read c.state).0 ≡ ok a
  client_read c a d e = elim (client-cases message read c) [
    | inl there ↦ ap (λ o. o.0) (sym there ∙ e)
    | inr missing ↦ absurd (ground (arith, ap (λ o. o.0) (sym missing ∙ e)))
  ]

  abbrev Read : Opened S → Result A → Opened S → Type 0
  Read =
      Outcome (slept sleep) (client message read) (held stored) (λ ms s. stored-sleep ms s.state)
        (λ s e h. held-client s)

  retried-Read :
      (c : Opened S)
      → Read c (retried message sleep options read c).0 (retried message sleep options read c).1
  unfolding retried base_with_retry
  retried-Read c =
      with_retry-Outcome (slept sleep) (client message read) (held stored)
        (λ ms s. stored-sleep ms s.state) (λ s e h. held-client s) options c

  Read-held :
      (c : Opened S) (r : Result A) (d : Opened S) → Read c r d → held stored d ≡ held stored c
  Read-held c (ok a) d (s', same, e) = ap (λ o. held stored o.1) (sym e) ∙ held-client s' ∙ same
  Read-held c (error x) d same = same

  Read-from :
      (c : Opened S) (r : Result A) (a : A) (d : Opened S)
      → Read c r d
      → r ≡ ok a
      → (s : S) × (stored s ≡ held stored c) × ((read s).0 ≡ ok a)
  Read-from c (ok b) a d (s', same, done) h =
      (s'.state, same, client_read s' a d (done ∙ ap (λ x. (x, d)) h))
  Read-from c (error x) a d same h = absurd (ground arith)

  pub held-retried :
      (c : Opened S) → held stored (retried message sleep options read c).1 ≡ held stored c
  held-retried c = Read-held c _ _ (retried-Read c)

  -- What is returned was read from what is stored.
  pub retried_from :
      (c : Opened S) (a : A) (d : Opened S)
      → retried message sleep options read c ≡ (ok a, d)
      → (s : S) × (stored s ≡ held stored c) × ((read s).0 ≡ ok a)
  retried_from c a d e = Read-from c _ a _ (retried-Read c) (ap (λ o. o.0) e)

-- A write that is made in all of its places or in none, and attempts that make it or throw before.
-- `effect` is what it makes of the old value of a place, and `IsPlace` tells of which places that
-- is known.
module _ {S V : Type 0} (stored : S → Text → Option V) (sleep : ℕ → S → S) (message : Text)
    (attempt : Exec (Opened S) (Unit {0})) (options : RetryOptions) (write : Exec S (Unit {0}))
    (IsPlace : Text → Type 0) (effect : Text → Option V → Option V)
    (effect_twice : (p : Text) (old : Option V) → effect p (effect p old) ≡ effect p old)
    (stored-sleep : (ms : ℕ) (s : S) → stored (sleep ms s) ≡ stored s)
    (attempt-cases : (c : Opened S) → (attempt c ≡ on_app write c) ⊎ (attempt c ≡ throw message c))
    (write_lem : (s : S)
      → (((write s).0 ≡ ok tt)
          × ((p : Text) → IsPlace p → stored (write s).1 p ≡ effect p (stored s p)))
        ⊎ (Failed (write s)
            × ((stored (write s).1 ≡ stored s)
                ⊎ ((p : Text) → IsPlace p → stored (write s).1 p ≡ effect p (stored s p))))) where
  abbrev Made : (Text → Option V) → (Text → Option V) → Type 0
  Made before now = (p : Text) → IsPlace p → now p ≡ effect p (before p)

  abbrev Written : (Text → Option V) → Opened S → Type 0
  Written before c = (held stored c ≡ before) ⊎ Made before (held stored c)

  -- A write on places where it may have been made before.
  Made-again :
      (before now : Text → Option V) (c : Opened S)
      → Written before c
      → Made (held stored c) now
      → Made before now
  Made-again before now c (inl same) all_made p place =
      all_made p place ∙ ap (λ f. effect p (f p)) same
  Made-again before now c (inr made) all_made p place =
      all_made p place ∙ ap (effect p) (made p place) ∙ effect_twice p (before p)

  again :
      (before now : Text → Option V) (c : Opened S)
      → Written before c
      → (now ≡ held stored c) ⊎ Made (held stored c) now
      → (now ≡ before) ⊎ Made before now
  again before now c (inl same) (inl none_made) = inl (none_made ∙ same)
  again before now c (inr made) (inl none_made) =
      inr (λ p place. ap (λ f. f p) none_made ∙ made p place)
  again before now c w (inr all_made) = inr (Made-again before now c w all_made)

  attempt_failed :
      (before : Text → Option V) (c : Opened S) (e : Text)
      → (attempt c).0 ≡ error e
      → Written before c
      → Written before (attempt c).1
  attempt_failed before c e h w = elim (attempt-cases c) [
    | inl there ↦ rw there (elim (write_lem c.state) [
      | inl (fine, _) ↦ absurd (ground (arith, fine, rw there at h))
      | inr (_, left) ↦ again before (stored (write c.state).1) c w left
    ])
    | inr missing ↦ rw missing w
  ]

  attempt-Made :
      (before : Text → Option V) (c d : Opened S)
      → attempt c ≡ (ok tt, d)
      → Written before c
      → Made before (held stored d)
  attempt-Made before c d h w = elim (attempt-cases c) [
    | inl there ↦ elim (write_lem c.state) [
      | inl (_, left) ↦ λ p place.
          ap (λ o. held stored o.1 p) (sym h ∙ there)
          ∙ Made-again before (stored (write c.state).1) c w left p place
      | inr ((e, failed), _) ↦ absurd (ground (arith, failed, ap (λ o. o.0) (sym there ∙ h)))
    ]
    | inr missing ↦ absurd (ground (arith, ap (λ o. o.0) (sym missing ∙ h)))
  ]

  finish :
      (before : Text → Option V) (r : Result (Unit {0})) (d : Opened S)
      → Ended
          (slept sleep)
          attempt
          (Written before)
          (λ ms c w. rw (stored-sleep ms c.state) w)
          (attempt_failed before)
          r
          d
      → r ≡ ok tt
      → Made before (held stored d)
  finish before (ok tt) d (s', w, e) h = attempt-Made before s' d e w
  finish before (error x) d w h = absurd (ground arith)

  -- A write that returns, after any number of attempts, has been made.
  pub retried_write :
      (c d : Opened S)
      → base_with_retry (slept sleep) options attempt c ≡ (ok tt, d)
      → (p : Text) → IsPlace p
      → held stored d p ≡ effect p (held stored c p)
  unfolding base_with_retry
  retried_write c d e = rw (← ap (λ o. o.1) e) (
      finish (held stored c) _ _
        (with_retry-Ended (slept sleep) attempt (Written (held stored c))
          (λ ms c w. rw (stored-sleep ms c.state) w) (attempt_failed (held stored c)) options c
          (inl refl))
        (ap (λ o. o.0) e))
