-- ===== src/Resources.antt =====
-- The resource governor: python/tom/resources/policies.py and python/tom/resources/manager.py.
pub mod Queue
pub mod Arbitration
pub mod Manager
pub mod Leases
pub mod Accounts
pub mod Steps
pub mod Safety
mod Examples
