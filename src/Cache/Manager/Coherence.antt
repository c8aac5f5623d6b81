-- ===== src/Cache/Manager/Coherence.antt =====
-- Reads through the levels of cache-manager.ts, against the database alone. Redis may fail at any
-- time, and L1 may drop or expire any entry.
use baileys_session_manager.Base.{
  ℕ, ◌≡◌, refl, ap, sym, ◌∙◌, ◌⊎◌, inl, inr, Option, none, some, Text, arith, ◌==◌, Bool-cases,
}
use baileys_session_manager.Base.Exec.{Result, ok, error}
use baileys_session_manager.Cache.Memory
use baileys_session_manager.Cache.Memory.{MemoryCache, CacheEntry, Versioned}
use baileys_session_manager.Cache.Memory.Invariant.{set-IsValid, get-IsValid, delete-IsValid}
use baileys_session_manager.Cache.Memory.Reads.{get-some, get-some}
use baileys_session_manager.Cache.Redis
use baileys_session_manager.Cache.Redis.{Redis, tcp, http}
use baileys_session_manager.Adapter
use baileys_session_manager.Adapter.{Adapter, SessionRecord, value_of, Failed}
use baileys_session_manager.Cache.Manager.{
  CacheManager, World, cache_key, IsPlain, cache_key-injective, cache_key-ne-nil, get, safe_l2_set,
  mode_is_http, mode_is_http, from_db, from_l2, from_l1, below_l1, fill, check_hit,
}
use baileys_session_manager.Cache.Manager.Levels.{
  View, Coherent, L1Agrees-get, L1Agrees-delete, L1Agrees-set, l2_read, l2_write,
}

module _ {D R : Type 0} (m : CacheManager D R) (rows : D → View)
    (held : R → Text → Option Versioned)
    (redis_laws : (redis : Redis R) → m.l2 ≡ some redis → Redis.Laws redis held)
    (IsSound : D → Type 0) (db_laws : Adapter.Laws m.adapter rows IsSound) where
  module _ (view : View) (sid key : Text) (plain : IsPlain sid) where
    abbrev Good : World D R → Type 0
    Good = Coherent rows held view

    -- To put the value of the row into L1 keeps the caches coherent.
    put_l1 :
        (now : ℕ) (value : Text) (version : ℕ) (w : World D R)
        → value_of (view sid key) ≡ some value
        → Good w
        → Good (record w { l1 = Memory.set now (cache_key sid key) value version w.l1 })
    put_l1 now value version w e g = record {
      shows = g.shows;
      valid = (set-IsValid now _ value version w.l1 (cache_key-ne-nil sid key) g.valid).0;
      l1_agrees = L1Agrees-set view now sid key value version w.l1 plain e g.valid g.l1_agrees;
      l2_agrees = g.l2_agrees;
    }

    -- So does a write of the value to L2.
    put_l2 :
        (value : Text) (version : ℕ) (w : World D R)
        → value_of (view sid key) ≡ some value
        → Good w
        → (w' : World D R) × (safe_l2_set m (cache_key sid key) value version w ≡ (ok tt, w'))
          × Good w'
    put_l2 value version w e g =
        let (r, done, after) = l2_write m held redis_laws (cache_key sid key) value version w in
        (
          record w { redis = r },
          done,
          record {
            shows = g.shows;
            valid = g.valid;
            l1_agrees = g.l1_agrees;
            l2_agrees = λ sid' key' v p h. elim (after (cache_key sid' key') v h) [
              | inl (same, given) ↦
                  let (s, k) = cache_key-injective sid sid' key key' plain p same in
                  rw (← s, ← k, given) e
              | inr old ↦ g.l2_agrees sid' key' v p old
            ];
          },
        )

    fill_lem :
        (now : ℕ) (o : Option SessionRecord) (w : World D R)
        → view sid key ≡ o
        → Good w
        → (w' : World D R) × (fill m now (cache_key sid key) o w ≡ (ok (value_of o), w')) × Good w'
    unfolding fill
    fill_lem now none w e g = (w, refl, g)
    fill_lem now (some r) w e g =
        let e' : value_of (view sid key) ≡ some r.value = rw e in
        let (w', done, g') = put_l2 r.value r.version _ e' (put_l1 now r.value r.version w e' g) in
        (w', rw done, g')

    -- The caches stay coherent, and the answer is the value of the row, or the failure of the
    -- database that was read.
    abbrev pub Answers : D → Result (Option Text) × World D R → Type 0
    Answers d out =
        Good out.1
        × ((out.0 ≡ ok (value_of (view sid key)))
            ⊎ ((e : Text) × ((m.adapter.get sid key d).0 ≡ error e) × (out.0 ≡ error e)))

    from_db_out :
        (now : ℕ) (w : World D R) (out : Result (Option SessionRecord) × D)
        → m.adapter.get sid key w.db ≡ out
        → (out.0 ≡ ok (view sid key)) ⊎ Failed out
        → rows out.1 ≡ view
        → Good w
        → Answers w.db (from_db m now sid key w)
    unfolding from_db
    from_db_out now w (ok o, d) q h s g =
        let e : view sid key ≡ o = ground arith in
        let g' : Good (record w { db = d }) = record {
          shows = s;
          valid = g.valid;
          l1_agrees = g.l1_agrees;
          l2_agrees = g.l2_agrees;
        } in
        let (w', done, g2) = fill_lem now o (record w { db = d }) e g' in
        rw (q, done) (g2, inl (ap ok (ap value_of (sym e))))
    from_db_out now w (error x, d) q h s g = rw q (
      record { shows = s; valid = g.valid; l1_agrees = g.l1_agrees; l2_agrees = g.l2_agrees },
      inr (x, refl, refl),
    )

    from_db_lem : (now : ℕ) (w : World D R) → Good w → Answers w.db (from_db m now sid key w)
    from_db_lem now w g =
        from_db_out now w (m.adapter.get sid key w.db) refl
          (rw (← ap (λ (v : View). v sid key) g.shows) (db_laws.get_lem sid key w.db))
          (db_laws.rows-get sid key w.db ∙ g.shows) g

    from_l2_lem :
        (now : ℕ) (c : Option Versioned) (w : World D R)
        → ((v : Versioned) → c ≡ some v → held w.redis (cache_key sid key) ≡ some v)
        → Good w
        → Answers w.db (from_l2 m now sid key c w)
    unfolding from_l2
    from_l2_lem now none w h g = from_db_lem now w g
    from_l2_lem now (some v) w h g =
        let e = g.l2_agrees sid key v plain (h v refl) in
        (put_l1 now v.value v.version w e g, inl (ap ok (sym e)))

    -- Only the state of the connection to L2 has changed.
    moved_redis :
        (w : World D R) (r : R) → held r ≡ held w.redis → Good w → Good (record w { redis = r })
    moved_redis w r h g = record {
      shows = g.shows;
      valid = g.valid;
      l1_agrees = g.l1_agrees;
      l2_agrees = rw h g.l2_agrees;
    }

    below_l1_lem :
        (now : ℕ) (answer : Option Text) (w : World D R)
        → ((value : Text) → answer ≡ some value → value_of (view sid key) ≡ some value)
        → Good w
        → Answers w.db (below_l1 m now sid key answer w)
    unfolding below_l1
    below_l1_lem now (some value) w h g = (g, inl (ap ok (sym (h value refl))))
    below_l1_lem now none w h g =
        let (c, r, done, same, honest) = l2_read m held redis_laws (cache_key sid key) w in
        rw done (
          from_l2_lem now c (record w { redis = r })
            (λ v q. ap (λ (f : Text → Option Versioned). f (cache_key sid key)) same ∙ honest v q)
            (moved_redis w r same g))

    -- What a hit in L1 answers is the value of the row.
    abbrev Trusted : World D R → Result (Option Text) × World D R → Type 0
    Trusted w out =
        (a : Option Text) × (w' : World D R) × (out ≡ (ok a, w'))
        × (w'.db ≡ w.db)
        × Good w'
        × ((value : Text) → a ≡ some value → value_of (view sid key) ≡ some value)

    dropped :
        (w : World D R) → Good w → Good (record w { l1 = Memory.delete (cache_key sid key) w.l1 })
    dropped w g = record {
      shows = g.shows;
      valid = delete-IsValid _ w.l1 g.valid;
      l1_agrees = L1Agrees-delete view _ w.l1 g.valid g.l1_agrees;
      l2_agrees = g.l2_agrees;
    }

    checked :
        (hit : Versioned) (c : Option Versioned) (w : World D R)
        → value_of (view sid key) ≡ some hit.value
        → Good w
        → Trusted w (check_hit (cache_key sid key) hit c w)
    unfolding check_hit
    checked hit none w e g = (some hit.value, w, refl, refl, g, λ v q. e ∙ q)
    checked hit (some c) w e g = elim (Bool-cases (c.version == hit.version)) [
      | inl same ↦ (some hit.value, w, rw same refl, refl, g, λ v q. e ∙ q)
      | inr other ↦ (none, _, rw other refl, refl, dropped w g, λ v q. cc)
    ]

    from_l1_lem :
        (hit : Option Versioned) (w : World D R)
        → ((v : Versioned) → hit ≡ some v → value_of (view sid key) ≡ some v.value)
        → Good w
        → Trusted w (from_l1 m (cache_key sid key) hit w)
    unfolding from_l1
    from_l1_lem none w h g = (none, w, refl, refl, g, λ v q. cc)
    from_l1_lem (some hit) w h g = elim (Bool-cases (mode_is_http m.l2)) [
      | inl is_http ↦
          let (c, r, done, same, honest) = l2_read m held redis_laws (cache_key sid key) w in
          rw (is_http, done)
            (checked hit c (record w { redis = r }) (h hit refl) (moved_redis w r same g))
      | inr other ↦ rw other (some hit.value, w, refl, refl, g, λ v q. h hit refl ∙ q)
    ]

    -- Over a database and a Redis that keep their laws, for a session whose id has no colon: if L1
    -- is valid and the caches hold no value but those of the rows, then a read returns the value
    -- of the row, or none if there is no row, whatever Redis fails to do; or it throws what the
    -- database threw when it was read. The caches still agree with the rows afterwards.
    pub get-Answers :
        (now later : ℕ) (w : World D R)
        → Coherent rows held view w
        → Answers w.db (get m now later sid key w)
    unfolding get
    get-Answers now later w g =
        let k = cache_key sid key in
        let (hit, c) = Memory.get now k w.l1 in
        let g' : Good (record w { l1 = c }) = record {
          shows = g.shows;
          valid = get-IsValid now k w.l1 g.valid;
          l1_agrees = L1Agrees-get view now k w.l1 g.valid g.l1_agrees;
          l2_agrees = g.l2_agrees;
        } in
        let honest : (v : Versioned) → hit ≡ some v → value_of (view sid key) ≡ some v.value =
          λ v q.
            let (e, found, same) = get-some now k w.l1 v g.valid q in
            g.l1_agrees sid key e plain found ∙ ap some same in
        let (a, w', done, db, g2, h) = from_l1_lem hit (record w { l1 = c }) honest g' in
        rw done (rw db at (below_l1_lem later a w' h g2))
