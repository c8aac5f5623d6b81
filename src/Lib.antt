-- ===== src/Lib.antt =====
-- baileys-session-manager keeps the credentials and signal keys of a WhatsApp session in a database,
-- behind two caches. Its code is under src/ of the repository, and the parts modelled here are these.
--   Cache/Memory       src/cache/memory-cache.ts, the L1 cache. The operations keep their names; the
--                      clock is an argument. `evictIfNeeded` is a loop on fuel: the number of entries
--                      is enough, since each round takes one out (Invariant).
--   Cache/Manager      src/cache/cache-manager.ts. The state is a world of three stores: the database,
--                      Redis and L1.
--   Cache/Redis        the interface of L2 in src/types.ts. Tcp and Http are src/cache/redis-tcp.ts and
--                      src/cache/redis-http.ts, Client is what both do.
--   Adapter            `IDatabaseAdapter` and `SessionRecord` of src/types.ts, with the laws that the
--                      callers rely on. The managers are written over any adapter with these laws.
--   Adapters/Base      src/adapters/base-adapter.ts: `withRetry`.
--   Adapters/Table     the table of the sessions as its rows (Rows), the requests to its servers
--                      (Requests), what a request that fails may leave (Partial), the statements on whole
--                      sessions (Sessions), and the operations that
--                      the adapters of the next line have in common (Client, Pool).
--   Adapters/Postgres, Adapters/Mysql, Adapters/D1, Adapters/Mongo
--                      src/adapters/postgres-adapter.ts, mysql-adapter.ts, cloudflare-d1-adapter.ts and
--                      mongodb-adapter.ts; what callers rely on is in Refinement.
--   Adapters/Sqlite    src/adapters/sqlite-adapter.ts; Worker is src/adapters/sqlite-worker.ts. Messages
--                      has what passes between the two threads, as a step relation; the other modules
--                      take a call as answered by the worker.
--   Adapters/Firebase  what the next two have in common: the app, the attempts, and `getMany`.
--   Adapters/Realtime  src/adapters/firebase-realtime-adapter.ts, with the escaping of its paths.
--   Adapters/Firestore src/adapters/firestore-adapter.ts, with the ids of its documents.
--   Utils/Retry        src/utils/retry.ts, over any state; the loop counts the retries down.
--   Utils/WriteBatcher src/utils/write-batcher.ts, as a step relation of promises, timer and queue.
--   Retention          src/retention.ts.
--   Lock/Mutex         src/lock/mutex-lock.ts; Lock/Redis is src/lock/redis-lock.ts, whose wait runs on
--                      fuel, one more than the delays of 50 ms until the deadline (Waiting).
--   SessionManager     src/session-manager.ts.
--   Encryption/Aes     src/encryption/aes.ts.
--   Factory            src/factory.ts: what is read, written, encoded and decoded for Baileys, over any
--                      lock, with the start, `saveCreds` and `close`.
--   Base               what the modules share; Tests has the theorems at concrete inputs.
-- A call that may throw is a function from a state to a result and a state, so that what was done
-- before the throw is kept. A read goes from L1 to L2 to the adapter, whose operations are retried;
-- the session manager and the retention pass work on the adapter and then tell the cache manager.
-- The servers of the databases and of Redis, the cipher and the encodings of Node and the mutex of
-- async-mutex are not under src/: they are interfaces, whose laws are their documented behaviour. A
-- request to a server may fail at any time, also after it has been carried out in whole or, where it is
-- not a transaction, in part. Where the paths or ids that the adapters of Firebase make can be those of
-- several rows, the session ids and keys are restricted to those for which they are not.
-- The message that a write publishes may come back to the own listener of the cache manager, which
-- then drops the entry from L1: whether it does at once is the environment's choice.
-- The columns of MySQL are taken to tell all texts apart. `to_object` keeps the key `__proto__`, which an
-- object of JavaScript does not take.
-- Numbers are natural: times, ages and limits are taken to be whole and not negative, as they are in
-- milliseconds and bytes. Texts are their UTF-16 code units.
-- Not modelled: the handle of the retention timer in src/factory.ts; src/serialization.ts,
-- whose calls of JSON are parameters of Factory; the search for the file of the SQLite worker and the end of
-- its thread in `close`; the calls that import the drivers and make their clients; src/utils/logger.ts and
-- the log; and the exports of src/index.ts. Reads that the code makes at the same time, in `getMany` of
-- the adapters of Firebase, `keys.get` and `getSessionInfo`, are made one after the other.
pub mod Base
pub mod Cache
pub mod Utils
pub mod Adapter
pub mod Retention
pub mod Lock
pub mod Adapters
pub mod SessionManager
pub mod Encryption
pub mod Factory
pub mod Tests
