-- ===== src/Ipc.antt =====
-- The connection to the engine (python/tom/ipc/transport.py and python/tom/ipc/client.py).
pub mod Frames
pub mod Transport
pub mod Wire
pub mod Client
pub mod Session
pub mod Runs
pub mod Registers
pub mod Steps
pub mod Settled
pub mod Sessions
pub mod Soundness
mod Examples
