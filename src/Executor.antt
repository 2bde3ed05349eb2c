-- ===== src/Executor.antt =====
-- shared/executor_identity.py: which implementation an executor's name stands for.
pub mod Identity
pub mod Pinning
mod Examples
