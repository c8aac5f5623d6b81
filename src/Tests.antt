-- ===== src/Tests.antt =====
-- The theorems at concrete inputs.
mod Caches
mod Managers
mod Updates
mod Stores
mod Locks
mod Factories
mod Adapters
mod Redis
mod Firebase
mod Realtime
mod Messages
