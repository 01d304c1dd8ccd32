-- ===== src/Confirmation.antt =====
-- The rate limit on confirmation prompts (python/tom/security/confirmation.py).
pub mod Tracker
pub mod Bursts
pub mod TwoBursts
mod Examples
