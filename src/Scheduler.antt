-- ===== src/Scheduler.antt =====
-- orchestrator/task_graph.py: the graph of tasks, its order, and what may start under the budgets.
pub mod Graph
pub mod Texts
pub mod Order
pub mod Search
pub mod Build
pub mod Plan
pub mod Running
pub mod Bounds
pub mod Considered
pub mod Judged
pub mod Verdicts
mod Examples
