-- ===== src/LoopDetector.antt =====
-- The detector of execution loops (python/tom/agents/loop_detector.py).
pub mod Defs
pub mod Observations
pub mod ToolCalls
mod Examples
