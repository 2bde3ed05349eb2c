-- ===== src/Recovery.antt =====
-- shared/execution_recovery.py: what becomes of an attempt whose executor was lost.
pub mod Blank
pub mod Reviews
pub mod ReviewLaws
pub mod Resolving
pub mod ReviewHistory
pub mod Claims
pub mod Updates
pub mod ClaimLaws
pub mod Fencing
pub mod Tokens
pub mod ClaimRows
pub mod ClaimHistory
mod Examples
