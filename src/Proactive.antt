-- ===== src/Proactive.antt =====
-- Proactive behaviour (python/tom/schemas/proactive.py and python/tom/agents/proactive.py).
pub mod Cron
pub mod Triggers
pub mod QuietHours
pub mod Scheduler
pub mod Conditions
pub mod Limits
pub mod Spacing
mod Examples
