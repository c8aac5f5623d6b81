-- ===== src/Adapters.antt =====
-- src/adapters: the adapters of the databases.
pub mod Base
pub mod Table
pub mod Sqlite
pub mod Postgres
pub mod Mysql
pub mod D1
pub mod Mongo
pub mod Firebase
pub mod Realtime
pub mod Firestore
