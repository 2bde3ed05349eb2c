-- ===== src/Attempt.antt =====
-- shared/execution_attempt.py: execution attempts and their store.
pub mod State
pub mod Defs
pub mod Leases
pub mod Invariant
pub mod Numbers
pub mod Create
pub mod CreateLaws
pub mod TransitionLaws
pub mod Reach
pub mod History
pub mod Expiry
pub mod Stale
mod Examples
