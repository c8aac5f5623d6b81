-- ===== src/Utils.antt =====
-- src/utils: retries and the write batcher.
pub mod Retry
pub mod WriteBatcher
