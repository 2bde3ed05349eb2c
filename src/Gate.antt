-- ===== src/Gate.antt =====
-- shared/execution_gate.py, with the grants, intents and identities that it verifies: the boundary
-- between a signed authority and the call of an executor.
pub mod Json
pub mod Contract
pub mod Artifacts
pub mod Signatures
pub mod Binding
pub mod World
pub mod Issue
pub mod Issued
pub mod Admission
pub mod Execute
pub mod Attempts
pub mod Checked
pub mod Authorized
pub mod Stages
pub mod Claimed
pub mod Taken
pub mod Executed
pub mod Success
pub mod Staging
pub mod Soundness
pub mod Interleaved
pub mod Woven
pub mod Once
pub mod RoundTrip
pub mod Retry
pub mod Retried
mod Examples
