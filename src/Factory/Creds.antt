-- ===== src/Factory/Creds.antt =====
-- What `loadCreds` returns after `saveCreds`.
use baileys_session_manager.Base.Exec.{Exec}
use baileys_session_manager.Cache.Manager
use baileys_session_manager.Cache.Manager.{mode_is_http}
use baileys_session_manager.Encryption.Aes
use baileys_session_manager.Encryption.Aes.{encrypt}
