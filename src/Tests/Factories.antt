-- ===== src/Tests/Factories.antt =====
-- The auth state at concrete inputs.
use baileys_session_manager.Base.{
  ℕ, ◌≡◌, refl, Bool, true, false, Option, none, some, List, [], ◌∷◌, ◌++◌, if◌then◌else◌, Text,
  text,
}
use baileys_session_manager.Base.Exec.{ok, error, Exec}
use baileys_session_manager.Adapter.{Entry, member, value_of, overwritten}
use baileys_session_manager.Cache.Manager.{World}
use baileys_session_manager.Adapters.Sqlite.Answers.{visible}
use baileys_session_manager.Adapters.Sqlite.Refinement.{sqlite_adapter-Laws}
use baileys_session_manager.Factory.{Baileys, EncryptionOptions, encode, decode, collect, keys_set}
use baileys_session_manager.Factory.Keys.{decode-encode, keys_set_rows}
use baileys_session_manager.Encryption.Aes.{resolve_key, is_hex_key, encrypt, payload_of}
use baileys_session_manager.Tests.Managers.{manager, world, options}
use baileys_session_manager.Tests.Stores.{plain, plain-Laws, iv, key_input, zeros}

-- Values that are their own serialization.
abbrev baileys : Baileys Text
baileys = record {
  serialize = λ v. v;
  deserialize = λ t. ok t;
  is_set = λ v. true;
  sync_key_from_object = λ v. v;
  init_auth_creds = text "new";
}

abbrev encryption : Option EncryptionOptions
encryption = some (record { enabled = true; key = key_input })

abbrev raw : Text
raw = text "enc:v1:" ++ (iv ++ (zeros ++ text "{}"))

decode-encode_example : decode baileys plain encryption raw ≡ ok (text "{}")
unfolding encode encrypt resolve_key is_hex_key payload_of
decode-encode_example =
    decode-encode baileys plain encryption (λ t. Unit) plain-Laws (λ v. tt) (λ v. refl) iv
      (text "{}") raw refl refl

-- A lock that is free.
abbrev with_lock : {S : Type 0} → Text → Exec S (Unit {0}) → Exec S (Unit {0})
with_lock key f = f

abbrev changes : List (Text × List (Text × Option Text))
changes = (text "session", (text "1", none) ∷ (text "2", some (text "x")) ∷ []) ∷ []

program : Unit {0}
unfolding baileys_session_manager.Adapters.Sqlite.get_all_keys
    baileys_session_manager.Adapters.Sqlite.get baileys_session_manager.Adapters.Sqlite.get_many
    baileys_session_manager.Adapters.Sqlite.set_many
    baileys_session_manager.Adapters.Sqlite.delete_many
    baileys_session_manager.Adapters.Base.base_with_retry
    baileys_session_manager.Adapters.Sqlite.sleep baileys_session_manager.Adapters.Sqlite.collect
    baileys_session_manager.Adapters.Sqlite.as_names baileys_session_manager.Adapters.Sqlite.as_rows
    baileys_session_manager.Adapters.Sqlite.as_row baileys_session_manager.Adapters.Sqlite.call
    baileys_session_manager.Adapters.Sqlite.to_record
    baileys_session_manager.Adapters.Sqlite.to_optional
    baileys_session_manager.Adapters.Sqlite.Worker.prepare
    baileys_session_manager.Adapters.Sqlite.Worker.execute
    baileys_session_manager.Adapters.Sqlite.Worker.fault_or
    baileys_session_manager.Adapters.Sqlite.Worker.strike
    baileys_session_manager.Adapters.Sqlite.Worker.is_in
    baileys_session_manager.Adapters.Sqlite.Worker.is_row
    baileys_session_manager.Adapters.Sqlite.Worker.nonempty
    baileys_session_manager.Adapters.Sqlite.Worker.reads
    baileys_session_manager.Adapters.Sqlite.Worker.writes
    baileys_session_manager.Adapters.Sqlite.Worker.select
    baileys_session_manager.Adapters.Sqlite.Worker.upsert
    baileys_session_manager.Adapters.Sqlite.Worker.upsert_all
    baileys_session_manager.Adapters.Sqlite.Worker.handle baileys_session_manager.Base.keep
    baileys_session_manager.Base.starts_with baileys_session_manager.Base.text_eq
    baileys_session_manager.Base.Map.lookup baileys_session_manager.Base.Map.insert
    baileys_session_manager.Base.Map.remove baileys_session_manager.Retention.is_candidate
    baileys_session_manager.Retention.stale_keys baileys_session_manager.Retention.is_stale
    baileys_session_manager.Retention.prune_expired_keys
    baileys_session_manager.Retention.on_deleted_all
    baileys_session_manager.Retention.Categories.resolve_category
    baileys_session_manager.Retention.Categories.categories
    baileys_session_manager.Retention.Categories.find_category
    baileys_session_manager.Retention.Categories.matches
    baileys_session_manager.Retention.Categories.place
    baileys_session_manager.Retention.Categories.sort_by_length
    baileys_session_manager.Adapter.member baileys_session_manager.SessionManager.to_object
    baileys_session_manager.SessionManager.to_entries
    baileys_session_manager.SessionManager.export_session
    baileys_session_manager.SessionManager.export_keys
    baileys_session_manager.SessionManager.export_session_to_object
    baileys_session_manager.SessionManager.import_session
    baileys_session_manager.SessionManager.with_value baileys_session_manager.SessionManager.forget
    baileys_session_manager.Adapters.Sqlite.sqlite_adapter
    baileys_session_manager.Utils.Retry.backoff baileys_session_manager.Utils.Retry.retry_loop
    baileys_session_manager.Utils.Retry.with_retry baileys_session_manager.Cache.Manager.on_deleted
    baileys_session_manager.Cache.Manager.safe_l2_del baileys_session_manager.Cache.Manager.publish
    baileys_session_manager.Cache.Manager.clear_session baileys_session_manager.Factory.collect
    baileys_session_manager.Factory.collect_bucket baileys_session_manager.Factory.encode
    baileys_session_manager.Factory.keys_set baileys_session_manager.Factory.write_some
    baileys_session_manager.Factory.delete_some baileys_session_manager.Factory.write_entries
    baileys_session_manager.Factory.delete_entries baileys_session_manager.Factory.on_written_all
    baileys_session_manager.Factory.stored_name baileys_session_manager.Cache.Manager.on_written
    baileys_session_manager.Cache.Manager.safe_l2_set
program = tt

keys_set_rows_example :
    value_of (
      visible
        (keys_set baileys plain none manager with_lock (λ n. iv) 150 (text "s") changes world).1.db
        (text "s")
        (text "session-2"))
    ≡ (if member (text "session-2") (text "session-1" ∷ [])
        then none
        else overwritten
            (record { key = text "session-2"; value = text "x" } ∷ [])
            (text "session-2")
            (value_of (visible world.db (text "s") (text "session-2"))))
unfolding program
keys_set_rows_example =
    keys_set_rows baileys plain none manager with_lock visible (sqlite_adapter-Laws options)
      (λ sid f w. refl) (λ n. iv) 150 (text "s") changes
      (record { key = text "session-2"; value = text "x" } ∷ []) (text "session-1" ∷ []) world refl
      refl (text "session-2")

-- Values whose serialization is one letter longer.
abbrev json : Baileys Text
json = record {
  serialize = λ v. b'"' ∷ v;
  deserialize = λ t. elim t [ [] ↦ error (text "end of input") | u ∷ v ↦ ok v ];
  is_set = λ v. true;
  sync_key_from_object = λ v. v;
  init_auth_creds = text "new";
}
