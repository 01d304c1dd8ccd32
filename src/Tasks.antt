-- ===== src/Tasks.antt =====
-- The life of a task: python/tom/schemas/task.py and python/tom/agents/task_manager.py.
pub mod State
pub mod Manager
pub mod Calls
pub mod Lifecycle
pub mod Completion
pub mod Cancel
mod Examples
