-- ===== src/Permissions.antt =====
-- The permission engine (python/tom/security/permissions.py), which judges each call of a tool before
-- it is carried out.
pub mod Levels
pub mod Decisions
pub mod Payloads
pub mod Engine
pub mod Scanning
pub mod Judging
pub mod Escalation
mod Examples
