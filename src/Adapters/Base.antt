-- ===== src/Adapters/Base.antt =====
-- src/adapters/base-adapter.ts: what the adapters share. The warnings of the retries are left out.
use baileys_session_manager.Base.{ℕ}
use baileys_session_manager.Base.Exec.{Exec}
use baileys_session_manager.Utils.Retry.{RetryOptions, with_retry}

-- `BaseAdapter.withRetry`. `sleep` is what passes while a call waits for its next attempt.
unfoldable pub base_with_retry : {S A : Type 0} → (ℕ → S → S) → RetryOptions → Exec S A → Exec S A
base_with_retry sleep options fn s =
    ((with_retry sleep fn options s).result, (with_retry sleep fn options s).state)
