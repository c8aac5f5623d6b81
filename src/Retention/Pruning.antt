-- ===== src/Retention/Pruning.antt =====
-- What a pass of retention.ts deletes, over any database that keeps its laws.
use baileys_session_manager.Base.{
  ℕ, ◌+◌, ◌≤◌, ◌≡◌, ◌≢◌, ◌↔◌, refl, sym, ap, ap₂, ◌∙◌, inl, inr, Bool, true, ◌&&◌, Option, none,
  some, List, [], ◌∷◌, if◌then◌else◌, keep, Text, text_eq_iff, arith, Bool-cases,
}
use baileys_session_manager.Base.Exec.{Result, ok, error}
use baileys_session_manager.Base.Map.{Map, lookup}
use baileys_session_manager.Adapter
use baileys_session_manager.Adapter.{Adapter, SessionRecord, member, is_some}
use baileys_session_manager.Cache.Manager.{CacheManager, World}
use baileys_session_manager.Cache.Manager.Effects.{on_deleted_lem}
use baileys_session_manager.Cache.Manager.Levels.{View}
use baileys_session_manager.Retention.{
  KeyRetentionOptions, configured, aged, aged_in, is_candidate, is_stale, stale_keys,
  on_deleted_all, delete_stale, check_candidates, prune_expired_keys,
}
use baileys_session_manager.Retention.Categories.{Category, creds_key, resolve_category}

member-keep :
    (test : Text → Bool) (key : Text) (ks : List Text)
    → member key (keep test ks) ≡ member key ks && test key
unfolding member keep
member-keep test key [] = refl
member-keep test key (k ∷ ks) = ground (arith, member-keep test key ks, text_eq_iff k key)

-- Is the row under the key to go? Only a row in a configured category that is old enough, and
-- never the credentials.
abbrev pub expired : KeyRetentionOptions → ℕ → Text → Option SessionRecord → Bool
expired options now key found = is_candidate options key && is_stale options now key found

-- When the row that is found under a key is to be pruned.
abbrev pub IsExpired : KeyRetentionOptions → ℕ → Text → Option SessionRecord → Type 0
IsExpired options now key found =
    (options.enabled ≡ true)
    × (key ≢ creds_key)
    × (category : Category) × (age : ℕ) × (r : SessionRecord) × (resolve_category key
        ≡ some category)
    × (options.max_age_ms_by_category category ≡ some age)
    × (found ≡ some r)
    × (r.updated_at + age ≤ now)

-- A row in a category, with its limit.
due :
    (now : ℕ) (r : SessionRecord) (limit : Option ℕ)
    → aged now r limit ≡ true
    → (age : ℕ) × (limit ≡ some age) × (r.updated_at + age ≤ now)
unfolding aged
due now r none h = absurd (ground (arith, h))
due now r (some age) h = (age, refl, ground (arith, h))

filed :
    (options : KeyRetentionOptions) (now : ℕ) (r : SessionRecord) (category : Option Category)
    → aged_in options now r category ≡ true
    → (c : Category) × (age : ℕ) × (category ≡ some c)
      × (options.max_age_ms_by_category c ≡ some age)
      × (r.updated_at + age ≤ now)
unfolding aged_in
filed options now r none h = absurd (ground (arith, h))
filed options now r (some c) h =
    let (age, limit, old) = due now r (options.max_age_ms_by_category c) h in
    (c, age, refl, limit, old)

expired_iff :
    (options : KeyRetentionOptions) (now : ℕ) (key : Text) (found : Option SessionRecord)
    → (options.enabled && expired options now key found ≡ true) ↔ IsExpired options now key found
unfolding is_candidate is_stale configured aged_in aged
expired_iff options now key none = (
  λ h. absurd (ground (arith, h)),
  λ (on, other, c, age, r, place, limit, there, old). absurd (ground (arith, there)),
)
expired_iff options now key (some r) = (
  λ h.
      let (c, age, place, limit, old) =
        filed options now r (resolve_category key) (ground (arith, h)) in
      (
        ground (arith, h),
        λ same. ground (arith, h, text_eq_iff key creds_key, same),
        c,
        age,
        r,
        place,
        limit,
        refl,
        old,
      ),
  λ (on, other, c, age, r', place, limit, there, old).
      rw (on, place, limit) (ground (arith, text_eq_iff key creds_key, other, limit, there, old)),
)

module _ {D R : Type 0} (m : CacheManager D R) where
  pub on_deleted_all_db :
      (sid : Text) (ks : List Text) (w : World D R)
      → (w' : World D R) × (on_deleted_all m sid ks w ≡ (ok tt, w')) × (w'.db ≡ w.db)
  unfolding on_deleted_all
  on_deleted_all_db sid [] w = (w, refl, refl)
  on_deleted_all_db sid (k ∷ ks) w =
      let (r, c, done, _) = on_deleted_lem m sid k w in
      let (w', rest, same) = on_deleted_all_db sid ks (record w { l1 = c; redis = r }) in
      (w', rw done rest, same)

stale_listed :
    (options : KeyRetentionOptions) (now : ℕ) (sid key : Text) (cs : List Text)
    (found : Map SessionRecord) (view : View)
    → lookup key found ≡ (if member key cs then view sid key else none)
    → member key (stale_keys options now found cs)
      ≡ member key cs && is_stale options now key (view sid key)
unfolding stale_keys
stale_listed options now sid key cs found view h =
    member-keep (λ k. is_stale options now k (lookup k found)) key cs
    ∙ elim (Bool-cases (member key cs)) [
      | inl there ↦ rw (h, there) refl
      | inr missing ↦ rw missing refl
    ]

module _ {D R : Type 0} (m : CacheManager D R) (rows : D → View) (IsSound : D → Type 0)
    (db_laws : Adapter.Laws m.adapter rows IsSound) where
  delete_stale_lem :
      (sid : Text) (stale ks : List Text) (w : World D R) (key : Text)
      → (delete_stale m sid stale w).0 ≡ ok ks
      → (ks ≡ stale)
        × (rows (delete_stale m sid stale w).1.db sid key
            ≡ (if member key stale then none else rows w.db sid key))
  unfolding delete_stale member
  delete_stale_lem sid [] ks w key h = ground arith
  delete_stale_lem sid (k ∷ rest) ks w key h = go (m.adapter.delete_many sid (k ∷ rest) w.db) refl
    where
      go :
          (out : Result (Unit {0}) × D)
          → m.adapter.delete_many sid (k ∷ rest) w.db ≡ out
          → (ks ≡ k ∷ rest)
            × (rows (delete_stale m sid (k ∷ rest) w).1.db sid key
                ≡ (if member key (k ∷ rest) then none else rows w.db sid key))
      go (ok u, d) e =
          let (w', done, same) = on_deleted_all_db m sid (k ∷ rest) (record w { db = d }) in
          let gone = db_laws.delete_many_lem sid (k ∷ rest) w.db (ap (λ o. o.0) e) key in
          let h' = rw (e, done) at h in rw (e, done, same) (cc, rw e at gone)
      go (error x, d) e = let h' = rw e at h in absurd (ground arith)

  -- Of the candidates, those go that are stale.
  check_candidates_lem :
      (options : KeyRetentionOptions) (now : ℕ) (sid : Text) (cs ks : List Text) (w : World D R)
      (key : Text)
      → IsSound w.db
      → (check_candidates m options now sid cs w).0 ≡ ok ks
      → (member key ks ≡ member key cs && is_stale options now key (rows w.db sid key))
        × (rows (check_candidates m options now sid cs w).1.db sid key
            ≡ (if member key ks then none else rows w.db sid key))
  unfolding check_candidates member
  check_candidates_lem options now sid [] ks w key sound h = ground arith
  check_candidates_lem options now sid (c ∷ cs) ks w key sound h =
      go (m.adapter.get_many sid (c ∷ cs) w.db) refl
    where
      go :
          (out : Result (Map SessionRecord) × D)
          → m.adapter.get_many sid (c ∷ cs) w.db ≡ out
          → (member key ks ≡ member key (c ∷ cs) && is_stale options now key (rows w.db sid key))
            × (rows (check_candidates m options now sid (c ∷ cs) w).1.db sid key
                ≡ (if member key ks then none else rows w.db sid key))
      go (ok found, d) e =
          let h' = rw e at h in
          let stale = stale_keys options now found (c ∷ cs) in
          let (same, after) = delete_stale_lem sid stale ks (record w { db = d }) key h' in
          let held = db_laws.get_many_lem sid (c ∷ cs) w.db found sound (ap (λ o. o.0) e) key in
          let kept : rows d ≡ rows w.db = rw e at (db_laws.rows-get_many sid (c ∷ cs) w.db) in
          rw e (
            ap (member key) same ∙ stale_listed options now sid key (c ∷ cs) found (rows w.db) held,
            after
                ∙ ap₂ (λ (b : Bool) (o : Option SessionRecord). if b then none else o)
                    (ap (member key) (sym same)) (ap (λ (v : View). v sid key) kept),
          )
      go (error x, d) e = let h' = rw e at h in absurd (ground arith)

  pruned :
      (options : KeyRetentionOptions) (now : ℕ) (sid : Text) (ks : List Text) (w : World D R)
      (key : Text)
      → IsSound w.db
      → (prune_expired_keys m options now sid w).0 ≡ ok ks
      → (member key ks ≡ options.enabled && expired options now key (rows w.db sid key))
        × (rows (prune_expired_keys m options now sid w).1.db sid key
            ≡ (if member key ks then none else rows w.db sid key))
  unfolding prune_expired_keys member is_stale stale_keys is_candidate
  pruned options now sid ks w key sound h = elim (Bool-cases options.enabled) [
    | inl enabled ↦ go enabled (m.adapter.get_all_keys sid w.db) refl
    | inr disabled ↦ let h' = rw disabled at h in rw disabled (ground arith)
  ]
    where
      go :
          options.enabled ≡ true
          → (out : Result (List Text) × D) → m.adapter.get_all_keys sid w.db ≡ out
          → (member key ks ≡ options.enabled && expired options now key (rows w.db sid key))
            × (rows (prune_expired_keys m options now sid w).1.db sid key
                ≡ (if member key ks then none else rows w.db sid key))
      go on (ok all, d) e =
          let h' = rw (on, e) at h in
          let cs = keep (is_candidate options) all in
          let (listed, after) =
            check_candidates_lem options now sid cs ks (record w { db = d }) key
              (rw e at (db_laws.get_all_keys-IsSound sid w.db sound)) h' in
          let there = db_laws.get_all_keys_lem sid w.db all (ap (λ o. o.0) e) key in
          let kept : rows d ≡ rows w.db = rw e at (db_laws.rows-get_all_keys sid w.db) in
          let row = ap (λ (v : View). v sid key) kept in
          rw (on, e)
            (
              listed ∙ ground (arith, member-keep (is_candidate options) key all, there, row),
              after ∙ ap (λ (o : Option SessionRecord). if member key ks then none else o) row,
            )
      go on (error x, d) e = let h' = rw (on, e) at h in absurd (ground arith)

  -- Over a sound database that keeps its laws: a pass of the pruning that returns reports the keys
  -- of the session's rows that are expired, and no others. A row is expired if pruning is on, its
  -- key is not "creds" and is in a category with a limit, and it was updated at least that long ago.
  -- The rows that are reported are deleted, and no others of the session.
  pub prune_expired_keys_lem :
      (options : KeyRetentionOptions) (now : ℕ) (sid : Text) (ks : List Text) (w : World D R)
      (key : Text)
      → IsSound w.db
      → (prune_expired_keys m options now sid w).0 ≡ ok ks
      → ((member key ks ≡ true) ↔ IsExpired options now key (rows w.db sid key))
        × (rows (prune_expired_keys m options now sid w).1.db sid key
            ≡ (if member key ks then none else rows w.db sid key))
  unfolding prune_expired_keys
  prune_expired_keys_lem options now sid ks w key sound h =
      let (listed, after) = pruned options now sid ks w key sound h in
      let (sure, all) = expired_iff options now key (rows w.db sid key) in
      ((λ there. sure (sym listed ∙ there), λ due. listed ∙ all due), after)
