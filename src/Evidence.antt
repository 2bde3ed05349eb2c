-- ===== src/Evidence.antt =====
-- shared/recovery_evidence.py: the tamper-evident record of a recovery.
pub mod Chain
pub mod Integrity
pub mod Binding
pub mod Artifact
mod Examples
