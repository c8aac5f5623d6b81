-- ===== src/Lock.antt =====
-- src/lock: the lock within a process, and the lock across processes.
pub mod Redis
pub mod Mutex
