-- ===== src/Capability.antt =====
-- shared/capability_policy.py, shared/effective_capability.py: what an agent may do.
pub mod Policy
pub mod Effective
pub mod Laws
pub mod Evidence
mod Examples
