-- ===== src/Executor.antt =====
-- The task executor (python/tom/agents/executor.py), which carries out the steps of a plan.
pub mod State
pub mod Loop
pub mod Budget
pub mod Passes
pub mod Order
mod Examples
