-- ===== src/Planner.antt =====
-- The order of the steps of a plan (python/tom/agents/planner.py and python/tom/agents/executor.py).
pub mod Graph
pub mod Termination
pub mod Counts
pub mod Invariant
pub mod Keys
pub mod Entries
pub mod Edges
pub mod Loop
pub mod Order
pub mod Validation
mod Examples
