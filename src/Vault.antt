-- ===== src/Vault.antt =====
-- The memory vault: app/models/vault.py, app/repositories/vault.py and
-- app/services/vault_service.py.
pub mod Row
pub mod Repository
pub mod Trash
pub mod Service
pub mod Reprocess
pub mod Lifecycle
pub mod Hidden
pub mod Purge
pub mod Sweep
pub mod Saving
pub mod Retry
pub mod Tenancy
pub mod Search
pub mod Scope
pub mod Examples
