-- ===== src/Grant.antt =====
-- shared/capability_grant_store.py: the life of a signed grant.
pub mod Store
pub mod History
pub mod Once
mod Examples
