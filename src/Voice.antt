-- ===== src/Voice.antt =====
-- The voice interaction (python/tom/voice/interaction_core.py) with the states of the pipeline
-- (python/tom/voice/pipeline.py).
pub mod Pipeline
pub mod Core
pub mod Turns
pub mod Runs
pub mod Invariant
pub mod Safety
pub mod Settling
pub mod Kept
pub mod Stopped
pub mod Stops
mod Examples
