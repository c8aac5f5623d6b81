-- ===== src/Tests/Redis.antt =====
-- The caches over Redis at concrete inputs.
use baileys_session_manager.Base.{refl, true, Option, [], ◌∷◌, Text, text, text_eq_refl, arith}
use baileys_session_manager.Base.Exec.{ok, error}
use baileys_session_manager.Base.Map.{Map, lookup, insert, remove, lookup-insert, lookup-remove}
use baileys_session_manager.Cache.Redis.{Laws}
use baileys_session_manager.Cache.Redis.Client.{Json, Client, IsJson, Keeps}
use baileys_session_manager.Cache.Redis.Refinement.{entry_of}
use baileys_session_manager.Cache.Redis.Http.{http_cache, http_cache-Laws}
use baileys_session_manager.Cache.Redis.Tcp.{TcpClient, tcp_cache, tcp_cache-Laws}

-- A payload with the version in front of the value.
abbrev json : Json
json = record {
  stringify = λ v. v.version ∷ v.value;
  parse = λ t. elim t [
    | [] ↦ error (text "end of input")
    | n ∷ s ↦ ok (record { value = s; version = n })
  ];
}

json-IsJson : IsJson json
json-IsJson = record { parse-stringify = λ v. refl; stringify-ne-nil = λ v e. cc }

-- A server that never fails.
abbrev client : Client (Map Text)
client = record {
  get = λ k r. (ok (lookup k r), r);
  set = λ k payload ttl r. (ok tt, insert k payload r);
  del = λ k r. (ok tt, remove k r);
}

abbrev texts_of : Map Text → Text → Option Text
texts_of r k = lookup k r

client-Keeps : Keeps client texts_of
client-Keeps = record {
  texts-get = λ k r. refl;
  get_lem = λ k r raw e. ground (arith, e);
  set_lem = λ k payload ttl r e. ground (arith, lookup-insert k k payload r, text_eq_refl k);
  set_other = λ k payload ttl r j ne. ground (arith, lookup-insert k j payload r, ne);
  set_failed =
      λ k payload ttl r raw e. ground (arith, e, lookup-insert k k payload r, text_eq_refl k);
  del_lem = λ k r e. ground (arith, lookup-remove k k r, text_eq_refl k);
  del_other = λ k r j ne. ground (arith, lookup-remove k j r, ne);
}

http_cache-Laws_example : Laws (http_cache json client) (λ r k. entry_of json (texts_of r k))
http_cache-Laws_example = http_cache-Laws json client texts_of json-IsJson client-Keeps

abbrev tcp_client : TcpClient (Map Text)
tcp_client = record {
  commands = client;
  publish = λ channel message r. (ok tt, r);
  quit = λ r. (ok tt, r);
  delivers = λ key r. true;
  subscribe = λ channel r. (ok tt, r);
  quit_subscriber = λ r. (ok tt, r);
}

tcp_cache-Laws_example :
    Laws (tcp_cache json tcp_client) (λ c k. entry_of json (texts_of c.state k))
tcp_cache-Laws_example =
    tcp_cache-Laws json tcp_client texts_of json-IsJson client-Keeps (λ k r. refl)
