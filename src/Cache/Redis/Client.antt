-- ===== src/Cache/Redis/Client.antt =====
-- What src/cache/redis-tcp.ts and src/cache/redis-http.ts have in common: `get`, `set` and `del`
-- over a client, with the value and the version of an entry in one JSON text.
use baileys_session_manager.Base.{
  ℕ, zero, suc, ◌≡◌, ◌≢◌, ◌⊎◌, Option, none, some, [], ◌∷◌, Text, text_eq, false,
}
use baileys_session_manager.Base.Exec.{Result, ok, error, Exec, ◌>>=◌}
use baileys_session_manager.Cache.Memory.{Versioned}

-- `JSON` on the payloads. `parse` may throw.
pub record Json : Type 0 where
  pub stringify : Versioned → Text
  pub parse : Text → Result Versioned

-- The methods of a client that both modes use. The last argument of `set` is the expiry in
-- seconds, if there is one.
pub record Client (R : Type 0) : Type 0 where
  pub get : Text → Exec R (Option Text)
  pub set : Text → Text → Option ℕ → Exec R (Unit {0})
  pub del : Text → Exec R (Unit {0})

abbrev pub found : Result Versioned → Result (Option Versioned)
found (ok v) = ok (some v)
found (error e) = error e

-- `if (!raw) { return null }`
unfoldable pub parsed : Json → Option Text → Result (Option Versioned)
parsed json none = ok none
parsed json (some []) = ok none
parsed json (some (u ∷ raw)) = found (json.parse (u ∷ raw))

-- `if (ttlSeconds)`
unfoldable pub expiry : Option ℕ → Option ℕ
expiry none = none
expiry (some zero) = none
expiry (some (suc n)) = some (suc n)

module _ {R : Type 0} (json : Json) (client : Client R) where
  unfoldable pub get_entry : Text → Exec R (Option Versioned)
  unfolding parsed
  get_entry key = do raw ← client.get key; λ r. (parsed json raw, r)

  unfoldable pub set_entry : Text → Text → ℕ → Option ℕ → Exec R (Unit {0})
  unfolding expiry
  set_entry key value version ttl_seconds =
      client.set key (json.stringify (record { value = value; version = version }))
        (expiry ttl_seconds)

  unfoldable pub del_entry : Text → Exec R (Unit {0})
  del_entry key = client.del key

-- What is documented of JSON: a payload is a text that is not empty, and is parsed to what it was
-- made of.
pub record IsJson (json : Json) : Type 0 where
  pub parse-stringify : (v : Versioned) → json.parse (json.stringify v) ≡ ok v
  pub stringify-ne-nil : (v : Versioned) → json.stringify v ≢ []

-- What is documented of the server, on which `texts` are what is stored: a command may fail, and a
-- key may be gone, as after its expiry.
pub record Keeps {R : Type 0} (client : Client R) (texts : R → Text → Option Text) : Type 0 where
  pub texts-get : (k : Text) (r : R) → texts (client.get k r).1 ≡ texts r
  pub get_lem :
      (k : Text) (r : R) (raw : Text) → (client.get k r).0 ≡ ok (some raw) → texts r k ≡ some raw
  pub set_lem :
      (k payload : Text) (ttl : Option ℕ) (r : R)
      → (client.set k payload ttl r).0 ≡ ok tt
      → texts (client.set k payload ttl r).1 k ≡ some payload
  pub set_other :
      (k payload : Text) (ttl : Option ℕ) (r : R) (j : Text)
      → text_eq k j ≡ false
      → texts (client.set k payload ttl r).1 j ≡ texts r j
  pub set_failed :
      (k payload : Text) (ttl : Option ℕ) (r : R) (raw : Text)
      → texts (client.set k payload ttl r).1 k ≡ some raw
      → (raw ≡ payload) ⊎ (texts r k ≡ some raw)
  pub del_lem : (k : Text) (r : R) → (client.del k r).0 ≡ ok tt → texts (client.del k r).1 k ≡ none
  pub del_other :
      (k : Text) (r : R) (j : Text) → text_eq k j ≡ false → texts (client.del k r).1 j ≡ texts r j
