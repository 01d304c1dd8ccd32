-- ===== src/Paths.antt =====
-- The path policy of the file tools (python/tom/security/policies.py).
pub mod Policy
pub mod Safety
mod Examples
