-- ===== src/Tests/Updates.antt =====
-- The write path of the cache manager at a concrete input, over a Redis in TCP mode whose messages
-- come back.
use baileys_session_manager.Base.{
  ◌≡◌, ◌⊎◌, refl, ap, sym, Bool-cases, inl, inr, true, none, some, [], Text, text, text_eq,
  text_eq_iff, text_eq_refl, arith,
}
use baileys_session_manager.Base.Exec.{Exec, ok, error}
use baileys_session_manager.Base.Map.{Map, lookup, lookup-insert, lookup-remove}
use baileys_session_manager.Cache.Memory.{create, Versioned}
use baileys_session_manager.Cache.Redis
use baileys_session_manager.Cache.Redis.{Redis, tcp}
use baileys_session_manager.Cache.Manager.{CacheManager, World, get, on_written}
use baileys_session_manager.Cache.Manager.Levels.{Coherent, Changed}
use baileys_session_manager.Cache.Manager.Updates.{get-on_written_redis}
use baileys_session_manager.Adapter.{value_of}
use baileys_session_manager.Adapters.Table.Rows.{select-upsert}
use baileys_session_manager.Adapters.Sqlite.Worker.{Store, upsert, select, is_row}
use baileys_session_manager.Adapters.Sqlite.{to_optional}
use baileys_session_manager.Adapters.Sqlite.Answers.{visible, IsKeyed}
use baileys_session_manager.Adapters.Sqlite.Refinement.{sqlite_adapter-Laws}
use baileys_session_manager.Tests.Managers.{
  redis, held, options, manager, store, empty-IsValid, s-IsPlain,
}

abbrev send : Text → Exec (Map Versioned) (Unit {0})
send k r = (ok tt, r)

abbrev tcp_redis : Redis (Map Versioned)
tcp_redis = record redis { mode = tcp; publish_invalidation = some send; delivered = λ k r. true }

tcp_redis-Laws : Redis.Laws tcp_redis held
tcp_redis-Laws = record {
  held-get = λ k r. refl;
  get_lem = λ k r v h. ground arith;
  set_lem = λ k value version r h.
      ground
        (arith, text_eq_refl k, lookup-insert k k (record { value = value; version = version }) r);
  set_other = λ k value version r j ne.
      ground (arith, lookup-insert k j (record { value = value; version = version }) r);
  set_failed = λ k value version r v h.
      ground
        (arith, text_eq_refl k, lookup-insert k k (record { value = value; version = version }) r);
  del_lem = λ k r h. ground (arith, text_eq_refl k, lookup-remove k k r);
  del_other = λ k r j ne. ground (arith, lookup-remove k j r);
  held-publish = λ publish k r h.
      let same : send ≡ publish = cc in
      ap (λ (q : Text → Exec (Map Versioned) (Unit {0})). held (q k r).1) (sym same);
}

abbrev tcp_manager : CacheManager Store (Map Versioned)
tcp_manager = record manager { l2 = some tcp_redis }

tcp_manager-redis : (r : Redis (Map Versioned)) → tcp_manager.l2 ≡ some r → Redis.Laws r held
tcp_manager-redis r h = let same : tcp_redis ≡ r = ground (arith, h) in rw (← same) tcp_redis-Laws

-- The row "session-1" has been written.
abbrev written : World Store (Map Versioned)
written = record {
  db = record store {
    table = upsert (text "s") (text "session-1") (text "w") 100 store.table;
    faults = [];
  };
  redis = [];
  l1 = create none none none;
}

written-Changed : Changed (visible store) (visible written.db) (text "s") (text "session-1")
written-Changed s k ne =
    let up = select-upsert (text "s") (text "session-1") (text "w") 100 store.table s k in
    elim (Bool-cases (text_eq (text "s") s)) [
      | inr other ↦ ap (λ o. value_of (to_optional o)) (rw other at up)
      | inl mine ↦ elim (Bool-cases (text_eq (text "session-1") k)) [
        | inr other ↦ ap (λ o. value_of (to_optional o)) (rw (mine, other) at up)
        | inl same ↦
            let p = (text_eq_iff (text "s") s).0 mine in
            let q = (text_eq_iff (text "session-1") k).0 same in
            absurd (ne (λ i. (sym p i, sym q i)))
      ]
    ]

get-on_written_redis_example :
    Coherent visible held
      (visible written.db)
      (on_written tcp_manager 50 (text "s") (text "session-1") (text "w") 2 written).1
    × (((get tcp_manager 60 60
            (text "s")
            (text "session-1")
            (on_written tcp_manager 50 (text "s") (text "session-1") (text "w") 2 written).1).0
          ≡ ok (some (text "w")))
        ⊎ ((e : Text) × ((tcp_manager.adapter.get (text "s") (text "session-1") written.db).0
              ≡ error e)
            × ((get tcp_manager 60 60
                  (text "s")
                  (text "session-1")
                  (on_written tcp_manager 50
                    (text "s")
                    (text "session-1")
                    (text "w")
                    2
                    written).1).0
                ≡ error e)))
unfolding create lookup select upsert text_eq is_row to_optional
    baileys_session_manager.Adapters.Table.to_record
get-on_written_redis_example =
    get-on_written_redis tcp_manager visible held tcp_manager-redis IsKeyed
      (sqlite_adapter-Laws options) tcp_redis (visible store) 50 60 60 (text "s") (text "session-1")
      (text "w") 2 written refl s-IsPlain empty-IsValid (λ sid key e p h. absurd (ground arith))
      (λ sid key v p h. absurd (ground arith)) refl written-Changed refl
