-- ===== src/Authority.antt =====
-- shared/authority_state.py, shared/authority_transition.py, shared/agent_authority.py: the
-- authority that an agent has earned.
pub mod Machine
pub mod Registry
pub mod Reads
pub mod Moves
pub mod Epochs
pub mod History
pub mod Persistence
mod Examples
