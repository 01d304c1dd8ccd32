-- ===== src/Models.antt =====
-- The model lifecycle coordinator (python/tom/resources/model_manager.py).
pub mod Coordinator
pub mod Soundness
pub mod Usage
mod Examples
