-- ===== src/Cache.antt =====
-- src/cache: the in-memory cache and the manager of the cache levels.
pub mod Memory
pub mod Redis
pub mod Manager
