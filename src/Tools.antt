-- ===== src/Tools.antt =====
-- The tools' registry and executor (python/tom/tools/registry.py and python/tom/tools/executor.py).
pub mod Registry
pub mod Binding
pub mod Pipeline
pub mod Clearance
pub mod Secrets
mod Examples
