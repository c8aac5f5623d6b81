-- ===== src/Encryption.antt =====
-- src/encryption/: how stored values are encrypted.
pub mod Aes
