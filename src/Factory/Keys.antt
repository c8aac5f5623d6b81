-- ===== src/Factory/Keys.antt =====
-- What `keys.set` leaves in the database, and what is decoded of what it encoded.
use baileys_session_manager.Base.{
  ℕ, ◌≡◌, refl, sym, ap, ◌∙◌, Option, none, some, List, [], ◌∷◌, if◌then◌else◌, length, Text, arith,
  inl, inr, Bool-cases,
}
use baileys_session_manager.Base.Exec.{ok, Exec, bind-ok, ◌>>=◌, ◌>>◌}
use baileys_session_manager.Adapter
use baileys_session_manager.Adapter.{Adapter, SessionRecord, Entry, member, value_of, overwritten}
use baileys_session_manager.Cache.Manager.{CacheManager, World, on_db}
use baileys_session_manager.Cache.Manager.Effects.{on_written_lem}
use baileys_session_manager.Encryption.Aes
use baileys_session_manager.Encryption.Aes.{Crypto, Bytes, iv_length, encrypt}
use baileys_session_manager.Encryption.Aes.Roundtrip.{decrypt-encrypt}
use baileys_session_manager.Retention.Pruning.{on_deleted_all_db}
use baileys_session_manager.Retention.{on_deleted_all}
use baileys_session_manager.Factory.{
  Baileys, EncryptionOptions, encode, decode, collect, on_written_all, write_entries,
  delete_entries, write_some, delete_some, keys_set, lift,
}

module _ {V : Type 0} (b : Baileys V) (c : Crypto) (encryption : Option EncryptionOptions)
    (IsText : Text → Type 0) (aes_laws : Aes.Laws c IsText)
    (unicode : (v : V) → IsText (b.serialize v))
    (deserialize-serialize : (v : V) → b.deserialize (b.serialize v) ≡ ok v) where
  -- What `encode` made of a value, with encryption on or off, is decoded to this value, if JSON
  -- reads back what it wrote, its text is Unicode, the cipher keeps its laws, and 12 random bytes
  -- were drawn.
  pub decode-encode :
      (iv : Bytes) (value : V) (raw : Text)
      → length iv ≡ iv_length
      → encode b c encryption iv value ≡ ok raw
      → decode b c encryption raw ≡ ok value
  unfolding encode decode
  decode-encode iv value raw l h = go encryption h
    where
      go :
          (e : Option EncryptionOptions)
          → encode b c e iv value ≡ ok raw
          → decode b c e raw ≡ ok value
      go none h = ap b.deserialize (ground (arith, h)) ∙ deserialize-serialize value
      go (some options) h = elim (Bool-cases options.enabled) [
        | inl on ↦
            let opened =
              (decrypt-encrypt c aes_laws iv (b.serialize value) options.key raw (unicode value) l
                (rw on at h)).0 in
            rw (on, opened) (deserialize-serialize value)
        | inr off ↦
            let same : b.serialize value ≡ raw = ground (arith, off, h) in
            rw off (ap b.deserialize (sym same) ∙ deserialize-serialize value)
      ]

chosen :
    (key : Text) (ks : List Text) (found : Option SessionRecord)
    → value_of (if member key ks then none else found)
      ≡ (if member key ks then none else value_of found)
chosen key ks found = ground arith

module _ {V : Type 0} (b : Baileys V) (c : Crypto) (encryption : Option EncryptionOptions)
    {D R : Type 0} (m : CacheManager D R)
    (with_lock : Text → Exec (World D R) (Unit {0}) → Exec (World D R) (Unit {0})) where
  on_written_all_db :
      (now : ℕ) (sid : Text) (es : List Entry) (w : World D R)
      → (w' : World D R) × (on_written_all m now sid es w ≡ (ok tt, w')) × (w'.db ≡ w.db)
  unfolding on_written_all
  on_written_all_db now sid [] w = (w, refl, refl)
  on_written_all_db now sid (e ∷ es) w =
      let (r, c1, done, _) = on_written_lem m now sid e.key e.value now w in
      let (w', rest, same) = on_written_all_db now sid es (record w { l1 = c1; redis = r }) in
      (w', rw done rest, same)

  module _ (rows : D → Text → Text → Option SessionRecord) {IsSound : D → Type 0}
      (db_laws : Adapter.Laws m.adapter rows IsSound)
      (free : (sid : Text) (f : Exec (World D R) (Unit {0})) (w : World D R)
        → with_lock sid f w ≡ f w) where
    write_some_rows :
        (now : ℕ) (sid : Text) (es : List Entry) (w : World D R)
        → (write_some m with_lock now sid es w).0 ≡ ok tt
        → (key : Text)
        → value_of (rows (write_some m with_lock now sid es w).1.db sid key)
          ≡ overwritten es key (value_of (rows w.db sid key))
    unfolding write_some write_entries overwritten
    write_some_rows now sid [] w h key = refl
    write_some_rows now sid (e ∷ es) w h key =
        let body = on_db (m.adapter.set_many sid (e ∷ es)) >> on_written_all m now sid (e ∷ es) in
        let alone = free sid body w in
        let (u, w', wrote, next) =
          bind-ok (on_db (m.adapter.set_many sid (e ∷ es))) (λ _. on_written_all m now sid (e ∷ es))
            w (ap (λ o. o.0) (sym alone) ∙ h) in
        let (w'', done, same) = on_written_all_db now sid (e ∷ es) w' in
        let value : D → Option Text = λ d. value_of (rows d sid key) in
        ap (λ o. value o.1.db) (alone ∙ next ∙ done)
        ∙ ap value same
        ∙ ap (λ o. value o.1.db) (sym wrote)
        ∙ db_laws.set_many_lem sid (e ∷ es) w.db (ap (λ o. o.0) wrote) key

    delete_some_rows :
        (sid : Text) (ks : List Text) (w : World D R)
        → (delete_some m with_lock sid ks w).0 ≡ ok tt
        → (key : Text)
        → rows (delete_some m with_lock sid ks w).1.db sid key
          ≡ (if member key ks then none else rows w.db sid key)
    unfolding delete_some delete_entries member
    delete_some_rows sid [] w h key = refl
    delete_some_rows sid (k ∷ ks) w h key =
        let body = on_db (m.adapter.delete_many sid (k ∷ ks)) >> on_deleted_all m sid (k ∷ ks) in
        let alone = free sid body w in
        let (u, w', gone, next) =
          bind-ok (on_db (m.adapter.delete_many sid (k ∷ ks))) (λ _. on_deleted_all m sid (k ∷ ks))
            w (ap (λ o. o.0) (sym alone) ∙ h) in
        let (w'', done, same) = on_deleted_all_db m sid (k ∷ ks) w' in
        let found : D → Option SessionRecord = λ d. rows d sid key in
        ap (λ o. found o.1.db) (alone ∙ next ∙ done)
        ∙ ap found same
        ∙ ap (λ o. found o.1.db) (sym gone)
        ∙ db_laws.delete_many_lem sid (k ∷ ks) w.db (ap (λ o. o.0) gone) key

    -- Over a database that keeps its laws and with a lock that is free: if the loops of `keys.set`
    -- collect the entries and the deletions, and the call returns, then under each key of the
    -- session there is no value if the key is among the deletions, else the last value among the
    -- entries for it, else the old value.
    pub keys_set_rows :
        (ivs : ℕ → Bytes) (now : ℕ) (sid : Text) (data' : List (Text × List (Text × Option V)))
        (es : List Entry) (ks : List Text) (w : World D R)
        → collect b c encryption ivs 0 data' ([], []) ≡ ok (es, ks)
        → (keys_set b c encryption m with_lock ivs now sid data' w).0 ≡ ok tt
        → (key : Text)
        → value_of (rows (keys_set b c encryption m with_lock ivs now sid data' w).1.db sid key)
          ≡ (if member key ks then none else overwritten es key (value_of (rows w.db sid key)))
    unfolding keys_set
    keys_set_rows ivs now sid data' es ks w changes h key =
        let write = write_some m with_lock now sid es in
        let drop = delete_some m with_lock sid ks in
        let after : keys_set b c encryption m with_lock ivs now sid data' w ≡ (write >> drop) w =
          ap
            (λ r.
              (lift r >>= λ ch.
              write_some m with_lock now sid ch.0 >> delete_some m with_lock sid ch.1)
                w)
            changes in
        let (u, w', wrote, next) = bind-ok write (λ _. drop) w (ap (λ o. o.0) (sym after) ∙ h) in
        let stored = write_some_rows now sid es w (ap (λ o. o.0) wrote) key in
        let dropped = delete_some_rows sid ks w' (ap (λ o. o.0) (sym (after ∙ next)) ∙ h) key in
        ap (λ o. value_of (rows o.1.db sid key)) (after ∙ next)
        ∙ ap value_of dropped
        ∙ chosen key ks (rows w'.db sid key)
        ∙ ap (λ v. if member key ks then none else v)
            (ap (λ o. value_of (rows o.1.db sid key)) (sym wrote) ∙ stored)
